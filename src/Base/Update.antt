-- ===== src/Base/Update.antt =====
-- Functions from numbers changed at one place: arrays that are read at an index in range, heaps.
use Prim.Native.Nat.{ℕ, zero, suc, ◌+◌, ◌*◌, ◌<◌}
use mathlib.Core.Path.{◌≡◌, refl, subst}
use mathlib.Core.Logic.{◌≢◌}
use native.Mathlib.Omega.{arith}
use native.Mathlib.Decide.{ℕ_discrete}
use systems_drills.Base.Tests.{◌==◌, ==_iff, ==_ne, if◌then◌else◌}

module _ {ℓ} {A : Type ℓ} where
  abbrev pub update : (ℕ → A) → ℕ → A → ℕ → A
  update f p v q = if p == q then v else f q

  pub update_self : (f : ℕ → A) (p : ℕ) (v : A) → update f p v p ≡ v
  update_self f p v = rw ((==_iff p p).1 refl)

  pub update_ne : (f : ℕ → A) (p q : ℕ) (v : A) → p ≢ q → update f p v q ≡ f q
  update_ne f p q v ne = rw (==_ne p q ne)

-- What holds below `n` still does if it holds of the new value.
pub update_all {ℓ κ} :
    {A : Type ℓ} (n : ℕ) (P : ℕ → A → Type κ) (f : ℕ → A) (p : ℕ) (v : A)
    → P p v
    → ((q : ℕ) → q < n → p ≢ q → P q (f q))
    → (q : ℕ) → q < n
    → P q (update f p v q)
update_all n P f p v new rest q lt = elim (ℕ_discrete p q) [
  | yes e ↦ subst (λ z. P z (update f p v z)) e (rw ((==_iff p p).1 refl) new)
  | no ne ↦ rw (==_ne p q ne) (rest q lt ne)
]

-- f 0 + ... + f (n - 1).
abbrev pub sum : ℕ → (ℕ → ℕ) → ℕ
sum zero f = 0
sum (suc n) f = sum n f + f n

pub sum_eq : (n : ℕ) (f g : ℕ → ℕ) → ((q : ℕ) → q < n → f q ≡ g q) → sum n f ≡ sum n g
sum_eq zero f g same = refl
sum_eq (suc n) f g same =
    omega (arith, sum_eq n f g (λ q lt. same q (omega arith)), same n (omega arith))

-- One more at one place is one more in all.
pub sum-step :
    (n p : ℕ) (f g : ℕ → ℕ)
    → p < n
    → g p ≡ f p + 1
    → ((q : ℕ) → q < n → p ≢ q → g q ≡ f q)
    → sum n g ≡ sum n f + 1
sum-step zero p f g lt e same = absurd (omega arith)
sum-step (suc n) p f g lt e same = elim (ℕ_discrete p n) [
  | yes last ↦ omega (
    arith,
    sum_eq n g f (λ q below. same q (omega arith) (λ h. omega (arith, h, last))),
    subst (λ z. g z ≡ f z + 1) last e,
  )
  | no ne ↦ omega (
    arith,
    sum-step n p f g (omega (arith, ne)) e (λ q below far. same q (omega arith) far),
    same n (omega arith) ne,
  )
]

pub sum_const : (n c : ℕ) (f : ℕ → ℕ) → ((q : ℕ) → q < n → f q ≡ c) → sum n f ≡ n * c
sum_const zero c f same = omega arith
sum_const (suc n) c f same =
    one_more (sum n f) (f n) (sum_const n c f (λ q lt. same q (omega arith))) (same n (omega arith))
  where
    one_more : (s x : ℕ) → s ≡ n * c → x ≡ c → s + x ≡ suc n * c
    one_more s x p q = grind arith
