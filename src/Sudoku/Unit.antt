-- ===== src/Sudoku/Unit.antt =====
-- One unit: the loop over `n` cells with its array of values seen.
use native.Mathlib.Nat.{zero-add}
use systems_drills.Base.{
  ℕ, zero, suc, ◌+◌, ◌≤◌, ◌<◌, ◌≡◌, ◌≢◌, inl, inr, refl, sym, ap, ◌∙◌, subst, Bool, true, false,
  Option, none, some, List, arith, ℕ_discrete, dec_le, Bool-cases, length, get_elem?,
  get_elem?-eq-get_or, get_or, set, store?-eq-set, length-set, get_or-set_self, get_or-set_ne,
  length-replicate, replicate, ==_iff, ==_ne, lt→ltb, le→ltb,
}
use systems_drills.Base.Int.{ℤ, pos, negsuc}
use systems_drills.Sudoku.{max_n, next, loop, cleared, mark}

-- A blank or a number up to `n`.
abbrev pub InRange : ℕ → ℤ → Type 0
InRange n (pos w) = w ≤ n
InRange n (negsuc w) = ⊥

-- The first `m` of the values are in range, and no number occurs twice.
abbrev pub UnitOk : ℕ → ℕ → (ℕ → ℤ) → Type 0
UnitOk n m f =
    ((i : ℕ) → i < m → InRange n (f i))
    × ((i j : ℕ) → i < m → j < m → i ≢ j → f i ≡ f j → f i ≡ pos 0)

-- `seen` says which numbers occur among the first `m` values.
record Noted (m : ℕ) (f : ℕ → ℤ) (seen : List Bool) : Type 0 where
  size : length seen ≡ max_n + 1
  sound : (w : ℕ) → get_or seen w false ≡ true → (w ≢ 0) × (i : ℕ) × (i < m) × (f i ≡ pos w)
  complete : (i w : ℕ) → i < m → f i ≡ pos w → w ≢ 0 → get_or seen w false ≡ true

pos_inj : (a b : ℕ) → pos a ≡ pos b → a ≡ b
pos_inj a b e = cc

get_or-replicate : (n i : ℕ) → get_or (replicate n false) i false ≡ false
get_or-replicate zero i = refl
get_or-replicate (suc n) zero = refl
get_or-replicate (suc n) (suc i) = get_or-replicate n i

cleared-Noted : (f : ℕ → ℤ) → Noted 0 f cleared
cleared-Noted f = record {
  size = length-replicate (max_n + 1) false;
  sound = λ w e. absurd (true_ne (sym e ∙ get_or-replicate (max_n + 1) w));
  complete = λ i w lt. absurd (omega arith);
}
  where
    true_ne : true ≢ false
    true_ne e = cc

-- What `mark` does with a value.
data Marked (n : ℕ) (seen : List Bool) (v : ℤ) : Type 0 where
  skips : v ≡ pos 0 → mark n seen v ≡ some (some seen) → Marked n seen v
  outside : ¬ InRange n v → mark n seen v ≡ some none → Marked n seen v
  again :
      (w : ℕ)
      → v ≡ pos w
      → w ≢ 0
      → get_or seen w false ≡ true
      → mark n seen v ≡ some none
      → Marked n seen v
  notes :
      (w : ℕ)
      → v ≡ pos w
      → w ≢ 0
      → w ≤ n
      → get_or seen w false ≡ false
      → mark n seen v ≡ some (some (set seen w true))
      → Marked n seen v

mark_cases : (n : ℕ) (seen : List Bool) (v : ℤ) → n < length seen → Marked n seen v
unfolding mark
mark_cases n seen (negsuc v) room = outside (λ b. b) refl
mark_cases n seen (pos v) room = elim (ℕ_discrete v 0) [
  | yes z ↦ skips (ap pos z) (rw ((==_iff v 0).1 z) refl)
  | no nz ↦ elim (dec_le v n) [
    | no above ↦ outside above (rw (==_ne v 0 nz, lt→ltb n v (omega arith)) refl)
    | yes le ↦ elim (Bool-cases (get_or seen v false)) [
      | inl was ↦ again v refl nz was (rw (==_ne v 0 nz, le→ltb n v le, read le, was) refl)
      | inr not_yet ↦ notes v refl nz le not_yet (
          rw
            (==_ne v 0 nz, le→ltb n v le, read le, not_yet, store?-eq-set seen v true (omega arith))
            refl)
    ]
  ]
]
  where
    read : v ≤ n → get_elem? seen v ≡ some (get_or seen v false)
    read le = get_elem?-eq-get_or seen v false (omega arith)

UnitOk-fewer : (n a b : ℕ) (f : ℕ → ℤ) → b ≤ a → UnitOk n a f → UnitOk n b f
UnitOk-fewer n a b f le (range, once) =
    (λ i lt. range i (omega arith), λ i j i_lt j_lt. once i j (omega arith) (omega arith))

-- A prefix with one value more.
module _ (n m : ℕ) (f : ℕ → ℤ) where
  below_or_last : (P : ℕ → Type 0) → ((i : ℕ) → i < m → P i) → P m → (i : ℕ) → i < suc m → P i
  below_or_last P below last i lt = elim (ℕ_discrete m i) [
    | yes e ↦ subst P e last
    | no ne ↦ below i (omega arith)
  ]

  UnitOk-more :
      UnitOk n m f
      → InRange n (f m)
      → ((i : ℕ) → i < m → f i ≡ f m → f m ≡ pos 0)
      → UnitOk n (suc m) f
  UnitOk-more (range, once) here new = (
    below_or_last (λ i. InRange n (f i)) range here,
    λ i j i_lt j_lt.
        below_or_last (λ i. (j : ℕ) → j < suc m → i ≢ j → f i ≡ f j → f i ≡ pos 0)
          (λ i lt.
            below_or_last (λ j. i ≢ j → f i ≡ f j → f i ≡ pos 0) (λ j lt'. once i j lt lt')
              (λ ne e. e ∙ new i lt e))
          (below_or_last (λ j. m ≢ j → f m ≡ f j → f m ≡ pos 0) (λ j lt ne e. new j lt (sym e))
            (λ ne. absurd (ne refl)))
          i i_lt j j_lt,
  )

  Noted-blank : (seen : List Bool) → f m ≡ pos 0 → Noted m f seen → Noted (suc m) f seen
  Noted-blank seen z noted = record {
    size = noted.size;
    sound = λ w e. (let (nz, i, lt, q) = noted.sound w e in (nz, i, omega arith, q));
    complete = λ i w lt e nz.
        below_or_last (λ i. f i ≡ pos w → get_or seen w false ≡ true)
          (λ i lt e. noted.complete i w lt e nz) (λ e. absurd (nz (pos_inj w 0 (sym e ∙ z)))) i lt
          e;
  }

  Noted-number :
      (seen : List Bool) (w : ℕ)
      → f m ≡ pos w
      → w ≢ 0
      → w < max_n + 1
      → Noted m f seen
      → Noted (suc m) f (set seen w true)
  Noted-number seen w is_w nz fits noted = record {
    size = length-set seen w true ∙ noted.size;
    sound = sound;
    complete = λ i x lt e x_nz. complete x x_nz i lt e;
  }
    where
      room : w < length seen
      room = omega (arith, noted.size)

      kept : (x : ℕ) → w ≢ x → get_or (set seen w true) x false ≡ get_or seen x false
      kept x ne = get_or-set_ne seen w x true false ne

      sound :
          (x : ℕ)
          → get_or (set seen w true) x false ≡ true
          → (x ≢ 0) × (i : ℕ) × (i < suc m) × (f i ≡ pos x)
      sound x e = elim (ℕ_discrete w x) [
        | yes q ↦ (λ z. nz (q ∙ z), m, omega arith, is_w ∙ ap pos q)
        | no ne ↦
            let (x_nz, i, lt, at) = noted.sound x (sym (kept x ne) ∙ e) in
            (x_nz, i, omega arith, at)
      ]

      complete :
          (x : ℕ)
          → x ≢ 0
          → (i : ℕ) → i < suc m
          → f i ≡ pos x
          → get_or (set seen w true) x false ≡ true
      complete x x_nz i lt e = elim (ℕ_discrete w x) [
        | yes q ↦
            subst (λ y. get_or (set seen w true) y false ≡ true) q
              (get_or-set_self seen w true false room)
        | no ne ↦
            kept x ne
            ∙ below_or_last (λ i. f i ≡ pos x → get_or seen x false ≡ true)
                (λ i lt e. noted.complete i x lt e x_nz)
                (λ e. absurd (ne (pos_inj w x (sym is_w ∙ e)))) i lt e
      ]

-- The loop went through, or it returned false.
pub data Scanned (n m : ℕ) (f : ℕ → ℤ) (r : Option (Option (List Bool))) : Type 0 where
  through : (seen : List Bool) → r ≡ some (some seen) → UnitOk n m f → Scanned n m f r
  refused : r ≡ some none → ¬ UnitOk n m f → Scanned n m f r

module _ (n : ℕ) (f : ℕ → ℤ) (fits : n ≤ max_n) where
  -- What one value does to the rest of the loop.
  value_step :
      (m k : ℕ) (seen : List Bool)
      → Noted m f seen
      → UnitOk n m f
      → ((seen' : List Bool)
          → Noted (suc m) f seen'
          → UnitOk n (suc m) f
          → Scanned n (suc m + k) f (loop (λ i seen. mark n seen (f i)) k (suc m) seen'))
      → Scanned n (m + suc k) f (loop (λ i seen. mark n seen (f i)) (suc k) m seen)
  unfolding loop
  value_step m k seen noted ok rest = by_case (mark_cases n seen (f m) (omega (arith, noted.size)))
    where
      same : m + suc k ≡ suc m + k
      same = omega arith

      goes :
          (seen' : List Bool)
          → mark n seen (f m) ≡ some (some seen')
          → Noted (suc m) f seen'
          → UnitOk n (suc m) f
          → Scanned n (m + suc k) f (loop (λ i seen. mark n seen (f i)) (suc k) m seen)
      goes seen' e noted' ok' = rw (e, same) (rest seen' noted' ok')

      stops :
          mark n seen (f m) ≡ some none
          → ¬ UnitOk n (suc m) f
          → Scanned n (m + suc k) f (loop (λ i seen. mark n seen (f i)) (suc k) m seen)
      stops e bad =
          refused (ap (λ r. next r (loop (λ i seen. mark n seen (f i)) k (suc m))) e)
            (λ all. bad (UnitOk-fewer n (m + suc k) (suc m) f (omega arith) all))

      by_case :
          Marked n seen (f m)
          → Scanned n (m + suc k) f (loop (λ i seen. mark n seen (f i)) (suc k) m seen)
      by_case (skips z e) =
          goes seen e (Noted-blank n m f seen z noted)
            (UnitOk-more n m f ok (subst (InRange n) (sym z) (omega arith)) (λ i lt q. z))
      by_case (outside out e) = stops e (λ all. out (all.0 m (omega arith)))
      by_case (again w q nz was e) = stops e (λ all. repeated all (noted.sound w was))
        where
          repeated : UnitOk n (suc m) f → (w ≢ 0) × (i : ℕ) × (i < m) × (f i ≡ pos w) → ⊥
          repeated all (w_nz, i, lt, at) = nz (
              pos_inj w 0 (
                sym q
                ∙ all.1 m i (omega arith) (omega arith) (λ e. absurd (omega arith)) (q ∙ sym at)))
      by_case (notes w q nz le not_yet e) =
          goes (set seen w true) e (Noted-number n m f seen w q nz (omega arith) noted) (
            UnitOk-more n m f ok (subst (InRange n) (sym q) le) (λ i lt same_value.
              absurd (true_ne (sym (noted.complete i w lt (same_value ∙ q) nz) ∙ not_yet))))
        where
          true_ne : true ≢ false
          true_ne e = cc

  scan :
      (k m : ℕ) (seen : List Bool)
      → Noted m f seen
      → UnitOk n m f
      → Scanned n (m + k) f (loop (λ i seen. mark n seen (f i)) k m seen)
  unfolding loop
  scan zero m seen noted ok = through seen refl (UnitOk-fewer n m (m + 0) f (omega arith) ok)
  scan (suc k) m seen noted ok =
      value_step m k seen noted ok (λ seen' noted' ok'. scan k (suc m) seen' noted' ok')

  pub scan_all : Scanned n n f (loop (λ i seen. mark n seen (f i)) n 0 cleared)
  scan_all =
      subst (λ m. Scanned n m f (loop (λ i seen. mark n seen (f i)) n 0 cleared)) (zero-add n)
        (scan n 0 cleared (cleared-Noted f)
          (λ i lt. absurd (omega arith), λ i j lt. absurd (omega arith)))

pub UnitOk-cong :
    (n m : ℕ) (f g : ℕ → ℤ) → ((i : ℕ) → i < m → f i ≡ g i) → UnitOk n m f → UnitOk n m g
UnitOk-cong n m f g e (range, once) = (
  λ i lt. subst (InRange n) (e i lt) (range i lt),
  λ i j i_lt j_lt ne q. sym (e i i_lt) ∙ once i j i_lt j_lt ne (e i i_lt ∙ q ∙ sym (e j j_lt)),
)
