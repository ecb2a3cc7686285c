-- ===== src/Messages/Parse.antt =====
-- `parse_msgs` on any bytes, on encoded messages, and on a bad message behind them.
use systems_drills.Base.{
  ℕ, zero, suc, ◌+◌, ◌-◌, ◌*◌, ◌/◌, ◌%◌, ◌^◌, ◌≤◌, ◌<◌, ◌≡◌, ◌≢◌, inl, inr, refl, sym, ap, ◌∙◌,
  false, Option, none, some, List, [], ◌∷◌, ◌++◌, arith, length, length-append, get_elem?,
  get_elem?-eq-get_or, append_assoc, ltb, Bool-cases, le→ltb, lt→ltb, append-nil,
}
use systems_drills.Messages.{Handler, handle_msg, known, u16, read_message, parse_loop, parse_msgs}
use systems_drills.Messages.Wire.{Message, IsMessage, encode, encode_all, AllMessages, deliver}

get_elem?-append {ℓ} :
    {A : Type ℓ} (pre xs : List A) (i j : ℕ)
    → i ≡ length pre + j
    → get_elem? (pre ++ xs) i ≡ get_elem? xs j
get_elem?-append [] xs i j e = ap (get_elem? xs) (omega arith)
get_elem?-append (p ∷ pre) xs zero j e = absurd (omega arith)
get_elem?-append (p ∷ pre) xs (suc i) j e = get_elem?-append pre xs i j (omega arith)

-- The checks on a message that is all there.
read_message_lem :
    (buf : List ℕ) (size i : ℕ) (m : Message)
    → IsMessage m
    → get_elem? buf i ≡ some (m.type % 2 ^ 8)
    → get_elem? buf (i + 1) ≡ some (m.type / 2 ^ 8)
    → get_elem? buf (i + 2) ≡ some (length m.payload % 2 ^ 8)
    → get_elem? buf (i + 3) ≡ some (length m.payload / 2 ^ 8)
    → i + length m.payload + 4 ≤ size
    → read_message buf size i ≡ some (some (m.type, length m.payload))
unfolding read_message
read_message_lem buf size i m ok e0 e1 e2 e3 fits =
    rw
      (
        le→ltb size (i + 4) (omega arith),
        e1,
        e0,
        type_bytes,
        ok.0,
        e3,
        e2,
        len_bytes,
        le→ltb size (i + length m.payload + 4) fits,
      )
      refl
  where
    type_bytes : u16 (m.type / 2 ^ 8 * 2 ^ 8 + m.type % 2 ^ 8) ≡ m.type
    type_bytes = ground (arith, ok.0)

    len_bytes : u16 (length m.payload / 2 ^ 8 * 2 ^ 8 + length m.payload % 2 ^ 8) ≡ length m.payload
    len_bytes = omega (arith, ok.1)

-- Inside the buffer the checks read nothing outside it.
read_message-ne-none :
    (buf : List ℕ) (size i : ℕ) → size ≤ length buf → read_message buf size i ≢ none
unfolding read_message
read_message-ne-none buf size i h = ground (
  arith,
  get_elem?-eq-get_or buf i 0,
  get_elem?-eq-get_or buf (i + 1) 0,
  get_elem?-eq-get_or buf (i + 2) 0,
  get_elem?-eq-get_or buf (i + 3) 0,
)

-- A message that is let through ends inside the size.
read_message_fits :
    (buf : List ℕ) (size i t l : ℕ)
    → size ≤ length buf
    → read_message buf size i ≡ some (some (t, l))
    → i + l + 4 ≤ size
unfolding read_message
read_message_fits buf size i t l h e = ground (
  arith,
  get_elem?-eq-get_or buf i 0,
  get_elem?-eq-get_or buf (i + 1) 0,
  get_elem?-eq-get_or buf (i + 2) 0,
  get_elem?-eq-get_or buf (i + 3) 0,
)

abbrev Ends : Option (Option ℕ × Handler) → Type 0
Ends o = (r : Option ℕ × Handler) × (o ≡ some r)

parse_loop_total :
    (f : ℕ) (buf : List ℕ) (size i c : ℕ) (h : Handler)
    → size ≤ length buf
    → i ≤ size
    → size < i + f
    → Ends (parse_loop f buf size i c h)
unfolding parse_loop
parse_loop_total zero buf size i c h hs hi hf = absurd (omega arith)
parse_loop_total (suc f) buf size i c h hs hi hf = elim (Bool-cases (ltb i size)) [
  | inr done ↦ rw done (_, refl)
  | inl more ↦ rw more (
      after (read_message buf size i) (read_message-ne-none buf size i hs) (λ t l e.
        parse_loop_total f buf size (i + l + 4) (u16 (c + 1)) (handle_msg h t (i + 4) l) hs
          (read_message_fits buf size i t l hs e) (omega arith)))
]
  where
    after :
        (r : Option (Option (ℕ × ℕ)))
        → r ≢ none
        → ((t l : ℕ)
            → r ≡ some (some (t, l))
            → Ends (parse_loop f buf size (i + l + 4) (u16 (c + 1)) (handle_msg h t (i + 4) l)))
        → Ends (elim r [
          | none ↦ none
          | some none ↦ some (none, h)
          | some (some (type, len)) ↦
              parse_loop f buf size (i + len + 4) (u16 (c + 1)) (handle_msg h type (i + 4) len)
        ])
    after none ne k = absurd (ne refl)
    after (some none) ne k = (_, refl)
    after (some (some (t, l))) ne k = k t l refl

-- With a size inside the buffer the parser returns, whatever the bytes are: it reads nothing
-- outside the buffer, and its loop ends.
pub parse_msgs_total :
    (buf : List ℕ) (size : ℕ) (h : Handler)
    → size ≤ length buf
    → size < 2 ^ 63
    → (r : Option ℕ × Handler) × (parse_msgs buf size h ≡ some r)
unfolding parse_msgs
parse_msgs_total buf size h hs small =
    parse_loop_total (suc size) buf size 0 0 h hs (omega arith) (omega arith)

parse_loop_next :
    (f : ℕ) (buf : List ℕ) (size i c t l : ℕ) (h : Handler)
    → i < size
    → read_message buf size i ≡ some (some (t, l))
    → parse_loop (suc f) buf size i c h
      ≡ parse_loop f buf size (i + l + 4) (u16 (c + 1)) (handle_msg h t (i + 4) l)
unfolding parse_loop
parse_loop_next f buf size i c t l h lt e = rw (lt→ltb i size lt, e)

-- The message that stands behind `pre` is read.
read_message-encode :
    (pre tl : List ℕ) (i : ℕ) (m : Message)
    → IsMessage m
    → i ≡ length pre
    → let buf = pre ++ (encode m ++ tl) in
      (read_message buf (length buf) i ≡ some (some (m.type, length m.payload))) × (i < length buf)
read_message-encode pre tl i m ok e = (
  read_message_lem _ _ i m ok (get_elem?-append pre _ i 0 (omega arith))
      (get_elem?-append pre _ (i + 1) 1 (omega arith))
      (get_elem?-append pre _ (i + 2) 2 (omega arith))
      (get_elem?-append pre _ (i + 3) 3 (omega arith)) (omega (arith, sizes)),
  omega (arith, sizes),
)
  where
    sizes :
        length (pre ++ (encode m ++ tl))
        ≡ length pre + suc (suc (suc (suc (length m.payload + length tl))))
    sizes = omega (arith, length-append pre (encode m ++ tl), length-append m.payload tl)

-- A run over encoded messages that stand behind `pre`, up to what follows them.
parse_loop-encode_all :
    (ms : List Message) (f extra : ℕ) (pre rest buf : List ℕ) (i j c d : ℕ) (h : Handler)
    → AllMessages ms
    → buf ≡ pre ++ (encode_all ms ++ rest)
    → i ≡ length pre
    → j ≡ i + length (encode_all ms)
    → c < 2 ^ 16
    → d ≡ u16 (c + length ms)
    → f ≡ length ms + extra
    → parse_loop f buf (length buf) i c h ≡ parse_loop extra buf (length buf) j d (deliver h i ms)
parse_loop-encode_all [] f extra pre rest buf i j c d h ok eb ei ej small ed ef =
    λ t. parse_loop (fuel t) buf (length buf) (index t) (count t) h
  where
    fuel : f ≡ extra
    fuel = omega arith

    index : i ≡ j
    index = omega arith

    count : c ≡ d
    count = omega arith
parse_loop-encode_all (m ∷ ms) f extra pre rest buf i j c d h ok eb ei ej small ed ef =
    ap (λ (t : ℕ). parse_loop t buf (length buf) i c h) fuel
    ∙ parse_loop_next (length ms + extra) buf (length buf) i c m.type (length m.payload) h read.1
        read.0
    ∙ parse_loop-encode_all ms (length ms + extra) extra (pre ++ encode m) rest buf
        (i + length m.payload + 4) j (u16 (c + 1)) d _ ok.1 split
        (omega (arith, length-append pre (encode m)))
        (omega (arith, length-append m.payload (encode_all ms))) (omega arith) (omega arith) refl
  where
    fuel : f ≡ suc (length ms + extra)
    fuel = omega arith

    here : buf ≡ pre ++ (encode m ++ (encode_all ms ++ rest))
    here = eb ∙ ap (λ t. pre ++ t) (append_assoc (encode m) (encode_all ms) rest)

    read :
        (read_message buf (length buf) i ≡ some (some (m.type, length m.payload)))
        × (i < length buf)
    read = rw here (read_message-encode pre (encode_all ms ++ rest) i m ok.0 ei)

    split : buf ≡ (pre ++ encode m) ++ (encode_all ms ++ rest)
    split = here ∙ sym (append_assoc pre (encode m) (encode_all ms ++ rest))

length-encode_all : (ms : List Message) → length ms ≤ length (encode_all ms)
length-encode_all [] = omega arith
length-encode_all (m ∷ ms) =
    omega (arith, length-encode_all ms, length-append m.payload (encode_all ms))

parse_loop_end :
    (f : ℕ) (buf : List ℕ) (size i c : ℕ) (h : Handler)
    → size ≤ i
    → parse_loop (suc f) buf size i c h ≡ some (some c, h)
unfolding parse_loop
parse_loop_end f buf size i c h le = rw (le→ltb i size le)

parse_loop_stop :
    (f : ℕ) (buf : List ℕ) (size i c : ℕ) (h : Handler)
    → i < size
    → read_message buf size i ≡ some none
    → parse_loop (suc f) buf size i c h ≡ some (none, h)
unfolding parse_loop
parse_loop_stop f buf size i c h lt e = rw (lt→ltb i size lt, e)

-- The encoding of messages parses: the return value is their number as a uint16_t, and the handler
-- has been called on each, in order, with its type, the index of its payload and its length.
pub parse_msgs-encode_all :
    (ms : List Message) (h : Handler)
    → AllMessages ms
    → parse_msgs (encode_all ms) (length (encode_all ms)) h
      ≡ some (some (u16 (length ms)), deliver h 0 ms)
unfolding parse_msgs
parse_msgs-encode_all ms h ok =
    parse_loop-encode_all ms (suc (length buf)) (suc (length buf - length ms)) [] [] buf 0
      (length buf) 0 (u16 (length ms)) h ok (sym (append-nil buf)) refl (omega arith) (omega arith)
      (omega arith) (omega (arith, length-encode_all ms))
    ∙ parse_loop_end (length buf - length ms) buf (length buf) (length buf) (u16 (length ms))
        (deliver h 0 ms) (omega arith)
  where
    buf : List ℕ
    buf = encode_all ms

-- A message at which the parser must stop: cut off in its header, of an unknown type, or with a
-- length that goes past the end.
pub data Bad : List ℕ → Type 0 where
  cut : (b : List ℕ) → 0 < length b → length b < 4 → Bad b
  unknown :
      (t0 t1 l0 l1 : ℕ) (b : List ℕ)
      → known (u16 (t1 * 2 ^ 8 + t0)) ≡ false
      → Bad (t0 ∷ t1 ∷ l0 ∷ l1 ∷ b)
  too_long :
      (t0 t1 l0 l1 : ℕ) (b : List ℕ)
      → length b < u16 (l1 * 2 ^ 8 + l0)
      → Bad (t0 ∷ t1 ∷ l0 ∷ l1 ∷ b)

read_message-Bad :
    (pre b : List ℕ)
    → Bad b
    → (read_message (pre ++ b) (length (pre ++ b)) (length pre) ≡ some none)
      × (length pre < length (pre ++ b))
unfolding read_message
read_message-Bad pre b (cut _ pos short) = ground (arith, length-append pre b)
read_message-Bad pre b (unknown t0 t1 l0 l1 r bad) = ground (
  arith,
  length-append pre b,
  get_elem?-append pre b (length pre) 0,
  get_elem?-append pre b (length pre + 1) 1,
)
read_message-Bad pre b (too_long t0 t1 l0 l1 r bad) = ground (
  arith,
  length-append pre b,
  get_elem?-append pre b (length pre) 0,
  get_elem?-append pre b (length pre + 1) 1,
  get_elem?-append pre b (length pre + 2) 2,
  get_elem?-append pre b (length pre + 3) 3,
)

-- Behind good messages a bad one makes the parser return -1, but only after the handler has been
-- called on every good message before it, and on nothing else.
pub parse_msgs-Bad :
    (ms : List Message) (b : List ℕ) (h : Handler)
    → AllMessages ms
    → Bad b
    → let buf = encode_all ms ++ b in parse_msgs buf (length buf) h ≡ some (none, deliver h 0 ms)
unfolding parse_msgs
parse_msgs-Bad ms b h ok bad =
    parse_loop-encode_all ms (suc (length buf)) (suc (length buf - length ms)) [] b buf 0
      (length (encode_all ms)) 0 (u16 (length ms)) h ok refl refl (omega arith) (omega arith)
      (omega arith) (omega (arith, length-encode_all ms, length-append (encode_all ms) b))
    ∙ parse_loop_stop (length buf - length ms) buf (length buf) (length (encode_all ms))
        (u16 (length ms)) (deliver h 0 ms) stop.1 stop.0
  where
    buf : List ℕ
    buf = encode_all ms ++ b

    stop :
        (read_message buf (length buf) (length (encode_all ms)) ≡ some none)
        × (length (encode_all ms) < length buf)
    stop = read_message-Bad (encode_all ms) b bad
