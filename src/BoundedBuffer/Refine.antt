-- ===== src/BoundedBuffer/Refine.antt =====
-- The queue and the bounded queue of the values that it holds.
use native.Mathlib.Nat.{mod-eq_of_lt, mod-add-mod, mod-lt}
use systems_drills.Base.{
  ℕ, zero, suc, ◌+◌, ◌-◌, ◌%◌, ◌≤◌, ◌<◌, ◌≡◌, ◌≢◌, refl, sym, ap, ap₂, ◌∙◌, true, false, none, some,
  List, [], ◌∷◌, ◌++◌, arith, ==_ne, length, length-set, get_or, get_elem?-eq-get_or, set,
  store?-eq-set, get_or-set_self, get_or-set_ne,
}
use systems_drills.Base.Bits.{word, add64, sub64}
use systems_drills.Ring.Window.{slot-ne}
use systems_drills.BoundedBuffer.{Bq, bq_put, bq_get}

-- The `n` values from slot `t` on.
abbrev pub slots : List ℕ → ℕ → ℕ → ℕ → List ℕ
slots buf c t zero = []
slots buf c t (suc n) = get_or buf t 0 ∷ slots buf c ((t + 1) % c) n

-- The values in the queue, oldest first.
abbrev pub contents : Bq → List ℕ
contents q = slots q.buf q.cap q.tail q.count

pub length-slots : (buf : List ℕ) (c t n : ℕ) → length (slots buf c t n) ≡ n
length-slots buf c t zero = refl
length-slots buf c t (suc n) = ap suc (length-slots buf c ((t + 1) % c) n)

pub record IsValid (q : Bq) : Type 0 where
  pub size : length q.buf ≡ q.cap
  pub room : q.count ≤ q.cap
  pub tail_in : q.tail < q.cap
  pub head_slot : q.head ≡ (q.tail + q.count) % q.cap
  pub fits : q.cap < word

next_slot : (c t n : ℕ) → ((t + 1) % c + n) % c ≡ (t + suc n) % c
next_slot c t n = mod-add-mod (t + 1) c n ∙ ap (λ m. m % c) (omega arith)

slots-set :
    (buf : List ℕ) (c x n t i : ℕ)
    → length buf ≡ c
    → t < c
    → n < c
    → i ≡ (t + n) % c
    → slots (set buf i x) c t (suc n) ≡ slots buf c t n ++ (x ∷ [])
slots-set buf c x zero t i hl ht hn e =
    let same : i ≡ t = e ∙ ap (λ m. m % c) (plus_zero t) ∙ mod-eq_of_lt ht in
    rw (same, get_or-set_self buf t x 0 (omega (arith, hl)))
  where
    plus_zero : (t : ℕ) → t + 0 ≡ t
    plus_zero t = omega arith
slots-set buf c x (suc n) t i hl ht hn e =
    ap₂ ◌∷◌ (get_or-set_ne buf i t x 0 (λ p. slot-ne c t n hn (sym e ∙ p ∙ sym (mod-eq_of_lt ht))))
      (slots-set buf c x n ((t + 1) % c) i hl (mod-lt (t + 1) (omega arith)) (omega arith)
        (e ∙ sym (next_slot c t n)))

pub bq_put-full : (q : Bq) (x : ℕ) → q.count ≡ q.cap → bq_put q x ≡ some (false, q)
unfolding bq_put
bq_put-full q x e = ground arith

abbrev pub after_put : Bq → ℕ → Bq
after_put q x = record q {
  buf = set q.buf q.head x;
  head = (q.head + 1) % q.cap;
  count = q.count + 1;
}

abbrev pub after_get : Bq → Bq
after_get q = record q { tail = (q.tail + 1) % q.cap; count = q.count - 1 }

head_in : (q : Bq) → IsValid q → q.head < q.cap
head_in q v =
    omega (arith, v.head_slot, mod-lt (q.tail + q.count) {m = q.cap} (omega (arith, v.tail_in)))

pub bq_put-stores :
    (q : Bq) (x : ℕ) → IsValid q → q.count ≢ q.cap → bq_put q x ≡ some (true, after_put q x)
unfolding bq_put
bq_put-stores q x v ne = rw (
  ==_ne q.count q.cap ne,
  store?-eq-set q.buf q.head x (omega (arith, head_in q v, v.size)),
  exact q.head (omega (arith, head_in q v)),
  exact q.count (omega (arith, v.room, ne)),
)
  where
    exact : (n : ℕ) → n < q.cap → add64 n 1 ≡ n + 1
    exact n lt = omega (arith, v.fits)

pub bq_get-empty : (q : Bq) → q.count ≡ 0 → bq_get q ≡ some (none, q)
unfolding bq_get
bq_get-empty q e = rw e

pub bq_get-takes :
    (q : Bq) → IsValid q → q.count ≢ 0 → bq_get q ≡ some (some (get_or q.buf q.tail 0), after_get q)
unfolding bq_get
bq_get-takes q v ne = rw (
  ==_ne q.count 0 ne,
  get_elem?-eq-get_or q.buf q.tail 0 (omega (arith, v.tail_in, v.size)),
  one_on,
  one_less,
)
  where
    one_on : add64 q.tail 1 ≡ q.tail + 1
    one_on = omega (arith, v.tail_in, v.fits)

    one_less : sub64 q.count 1 ≡ q.count - 1
    one_less = omega (arith, v.room, v.fits, ne)

pub after_put-IsValid : (q : Bq) (x : ℕ) → IsValid q → q.count ≢ q.cap → IsValid (after_put q x)
after_put-IsValid q x v ne = record {
  size = length-set q.buf q.head x ∙ v.size;
  room = omega (arith, v.room, ne);
  tail_in = v.tail_in;
  head_slot =
      ap (λ h. (h + 1) % q.cap) v.head_slot
      ∙ mod-add-mod (q.tail + q.count) q.cap 1
      ∙ ap (λ m. m % q.cap) (omega arith);
  fits = v.fits;
}

pub after_get-IsValid : (q : Bq) → IsValid q → q.count ≢ 0 → IsValid (after_get q)
after_get-IsValid q v ne = record {
  size = v.size;
  room = omega (arith, v.room);
  tail_in = mod-lt (q.tail + 1) (omega (arith, v.tail_in));
  head_slot =
      v.head_slot
      ∙ ap (λ m. (q.tail + m) % q.cap) (count_back q.count ne)
      ∙ sym (next_slot q.cap q.tail (q.count - 1));
  fits = v.fits;
}
  where
    count_back : (n : ℕ) → n ≢ 0 → n ≡ suc (n - 1)
    count_back n nz = omega (arith, nz)

pub contents-cons :
    (q : Bq) → q.count ≢ 0 → contents q ≡ get_or q.buf q.tail 0 ∷ contents (after_get q)
contents-cons q ne = go q.count ne
  where
    go :
        (n : ℕ)
        → n ≢ 0
        → slots q.buf q.cap q.tail n
          ≡ get_or q.buf q.tail 0 ∷ slots q.buf q.cap ((q.tail + 1) % q.cap) (n - 1)
    go zero nz = absurd (nz refl)
    go (suc n) nz =
        ap (λ m. get_or q.buf q.tail 0 ∷ slots q.buf q.cap ((q.tail + 1) % q.cap) m) (pred_suc n)
      where
        pred_suc : (n : ℕ) → n ≡ suc n - 1
        pred_suc n = omega arith

pub contents-put :
    (q : Bq) (x : ℕ)
    → IsValid q
    → q.count ≢ q.cap
    → contents (after_put q x) ≡ contents q ++ (x ∷ [])
contents-put q x v ne =
    ap (λ n. slots (set q.buf q.head x) q.cap q.tail n) (plus_one q.count)
    ∙ slots-set q.buf q.cap x q.count q.tail q.head v.size v.tail_in (omega (arith, v.room, ne))
        v.head_slot
  where
    plus_one : (n : ℕ) → n + 1 ≡ suc n
    plus_one n = omega arith
