-- ===== src/BoundedBuffer/Threads/Sums.antt =====
-- Lists of threads: sums over them, what holds of all of them, and one of them changed or woken.
use systems_drills.Base.{
  ℕ, zero, suc, ◌+◌, ◌<◌, ◌≡◌, ◌≢◌, ◌⊎◌, inl, inr, refl, sym, ap, ◌∙◌, subst, Bool, true, false,
  Option, none, some, List, map, [], ◌∷◌, arith, if◌then◌else◌, get_elem?, set, some_inj,
  Bool-cases, length, length-set,
}
use systems_drills.BoundedBuffer.Threads.{wake_first, signal}

abbrev pub one_if : Bool → ℕ
one_if t = if t then 1 else 0

module _ {ℓ} {A : Type ℓ} where
  abbrev pub sum_by : (A → ℕ) → List A → ℕ
  sum_by f [] = 0
  sum_by f (x ∷ xs) = f x + sum_by f xs

  pub sum_by-set :
      (f : A → ℕ) (k : ℕ) (xs : List A) (x y : A)
      → get_elem? xs k ≡ some x
      → sum_by f (set xs k y) + f x ≡ sum_by f xs + f y
  sum_by-set f k [] x y e = cc
  sum_by-set f zero (z ∷ xs) x y e = omega (arith, ap f (some_inj e))
  sum_by-set f (suc k) (z ∷ xs) x y e = omega (arith, sum_by-set f k xs x y e)

  pub sum_by_ge :
      (f : A → ℕ) (k : ℕ) (xs : List A) (x : A) → get_elem? xs k ≡ some x → f x < sum_by f xs + 1
  sum_by_ge f k [] x e = cc
  sum_by_ge f zero (z ∷ xs) x e = omega (arith, ap f (some_inj e))
  sum_by_ge f (suc k) (z ∷ xs) x e = omega (arith, sum_by_ge f k xs x e)

  abbrev pub All {κ} : (A → Type κ) → List A → Type κ
  All P [] = Unit
  All P (x ∷ xs) = P x × All P xs

  pub All-get {κ} :
      (P : A → Type κ) (k : ℕ) (xs : List A) (x : A) → All P xs → get_elem? xs k ≡ some x → P x
  All-get P k [] x all e = cc
  All-get P zero (z ∷ xs) x all e = subst P (some_inj e) all.0
  All-get P (suc k) (z ∷ xs) x all e = All-get P k xs x all.1 e

  pub All-set {κ} :
      (P : A → Type κ) (k : ℕ) (xs : List A) (y : A) → All P xs → P y → All P (set xs k y)
  All-set P k [] y all new = tt
  All-set P zero (z ∷ xs) y all new = (new, all.1)
  All-set P (suc k) (z ∷ xs) y all new = (all.0, All-set P k xs y all.1 new)

  pub map-set {κ} :
      {B : Type κ} (f : A → B) (k : ℕ) (xs : List A) (x y : A)
      → get_elem? xs k ≡ some x
      → f y ≡ f x
      → map f (set xs k y) ≡ map f xs
  map-set f k [] x y e same = refl
  map-set f zero (z ∷ xs) x y e same = ap (λ b. b ∷ map f xs) (same ∙ ap f (sym (some_inj e)))
  map-set f (suc k) (z ∷ xs) x y e same = ap (λ l. f z ∷ l) (map-set f k xs x y e same)

  -- One of the threads can go on, or none can.
  pub one_or_none :
      (test : A → Bool) (xs : List A)
      → ((k : ℕ) × (x : A) × (get_elem? xs k ≡ some x) × (test x ≡ true))
        ⊎ All (λ x. test x ≡ false) xs
  one_or_none test [] = inr tt
  one_or_none test (x ∷ xs) = elim (Bool-cases (test x)) [
    | inl can ↦ inl (zero, x, refl, can)
    | inr cannot ↦ elim (one_or_none test xs) [
      | inl (k, y, at, can) ↦ inl (suc k, y, at, can)
      | inr all ↦ inr (cannot, all)
    ]
  ]

  -- A signal changes nothing, as no thread sleeps, or wakes one that does.
  abbrev pub Signalled : (A → Bool) → (A → A) → List A → List A → Type ℓ
  Signalled sleeps wake xs ys =
      (ys ≡ xs) × (sum_by (λ x. one_if (sleeps x)) xs ≡ 0)
      ⊎ (k : ℕ) × (x : A) × (get_elem? xs k ≡ some x) × (sleeps x ≡ true) × (ys ≡ set xs k (wake x))

  wake_first-Signalled :
      (sleeps : A → Bool) (wake : A → A) (xs : List A)
      → Signalled sleeps wake xs (wake_first sleeps wake xs)
  wake_first-Signalled sleeps wake [] = inl (refl, refl)
  wake_first-Signalled sleeps wake (x ∷ xs) = elim (Bool-cases (sleeps x)) [
    | inl yes_it ↦ inr (zero, x, refl, yes_it, rw yes_it refl)
    | inr awake ↦ elim (wake_first-Signalled sleeps wake xs) [
      | inl (same, none_of) ↦
          inl (rw awake (ap (λ l. x ∷ l) same), omega (arith, ap one_if awake, none_of))
      | inr (k, y, at, asleep, woke) ↦ inr (suc k, y, at, asleep, rw awake (ap (λ l. x ∷ l) woke))
    ]
  ]

  pub signal-Signalled :
      (sleeps : A → Bool) (wake : A → A) (pick : ℕ) (xs : List A)
      → Signalled sleeps wake xs (signal sleeps wake pick xs)
  unfolding signal
  signal-Signalled sleeps wake pick xs = go (get_elem? xs pick) refl
    where
      go :
          (o : Option A)
          → get_elem? xs pick ≡ o
          → Signalled sleeps wake xs (elim o [
            | none ↦ wake_first sleeps wake xs
            | some x ↦ if sleeps x then set xs pick (wake x) else wake_first sleeps wake xs
          ])
      go none e = wake_first-Signalled sleeps wake xs
      go (some x) e = elim (Bool-cases (sleeps x)) [
        | inl asleep ↦ inr (pick, x, e, asleep, rw asleep refl)
        | inr awake ↦ rw awake (wake_first-Signalled sleeps wake xs)
      ]

  module _ (sleeps : A → Bool) (wake : A → A) (xs ys : List A)
      (h : Signalled sleeps wake xs ys) where
    -- What waking a thread leaves alone.
    pub Signalled-sum_by :
        (f : A → ℕ) → ((x : A) → sleeps x ≡ true → f (wake x) ≡ f x) → sum_by f ys ≡ sum_by f xs
    Signalled-sum_by f same = elim h [
      | inl (e, z) ↦ ap (sum_by f) e
      | inr (k, x, at, asleep, e) ↦
          omega (arith, ap (sum_by f) e, sum_by-set f k xs x (wake x) at, same x asleep)
    ]

    pub Signalled-All {κ} :
        (P : A → Type κ) → ((x : A) → sleeps x ≡ true → P x → P (wake x)) → All P xs → All P ys
    Signalled-All P keep all = elim h [
      | inl (e, z) ↦ subst (All P) (sym e) all
      | inr (k, x, at, asleep, e) ↦
          subst (All P) (sym e)
            (All-set P k xs (wake x) all (keep x asleep (All-get P k xs x all at)))
    ]

    pub Signalled-map {κ} :
        {B : Type κ} (f : A → B) → ((x : A) → f (wake x) ≡ f x) → map f ys ≡ map f xs
    Signalled-map f same = elim h [
      | inl (e, z) ↦ ap (map f) e
      | inr (k, x, at, asleep, e) ↦ ap (map f) e ∙ map-set f k xs x (wake x) at (same x)
    ]

    pub Signalled-length : length ys ≡ length xs
    Signalled-length = elim h [
      | inl (e, z) ↦ ap length e
      | inr (k, x, at, asleep, e) ↦ ap length e ∙ length-set xs k (wake x)
    ]

    -- If a thread still sleeps, one did before, and there is one more that can call.
    pub Signalled-ready {κ} :
        (P : A → Type κ) (ready : A → ℕ)
        → All P xs
        → ((x : A) → P x → sleeps x ≡ true → ready (wake x) ≡ ready x + 1)
        → sum_by (λ x. one_if (sleeps x)) ys ≢ 0
        → (sum_by (λ x. one_if (sleeps x)) xs ≢ 0) × (sum_by ready ys ≡ sum_by ready xs + 1)
    Signalled-ready P ready all up still = elim h [
      | inl (e, z) ↦ absurd (still (ap (sum_by (λ x. one_if (sleeps x))) e ∙ z))
      | inr (k, x, at, asleep, e) ↦ (
        (λ z. omega (arith, z, sum_by_ge (λ x. one_if (sleeps x)) k xs x at, ap one_if asleep)),
        omega (
          arith,
          ap (sum_by ready) e,
          sum_by-set ready k xs x (wake x) at,
          up x (All-get P k xs x all at) asleep,
        ),
      )
    ]
