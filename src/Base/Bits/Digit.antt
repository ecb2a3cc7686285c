-- ===== src/Base/Bits/Digit.antt =====
-- A number by its binary digits, and the powers of two among the numbers.
use Prim.Native.Nat.{
  ℕ, zero, suc, ◌+◌, ◌-◌, ◌*◌, ◌/◌, ◌%◌, ◌^◌, ◌<◌, ◌≤◌, ◌∣◌, bit_and, bit_or, max,
}
use mathlib.Core.Path.{◌≡◌, refl, ap, sym, ◌∙◌, ◌≡⟨◌⟩◌, ◌∎}
use mathlib.Core.Logic.{◌≢◌, ◌↔◌, ◌⊎◌, inl, inr}
use mathlib.Core.WellFounded
use native.Mathlib.Nat.{
  pow-suc, div-div-eq-div-mul, mul_comm, add-zero, pow-le-pow_right, one-le-pow, dvd_refl,
  dvd-mul_right_of_dvd, mod-mod_of_dvd, le_antisymm, mod-eq-zero_of_dvd,
}
use native.Mathlib.Decide.{ℕ_discrete, dec_lt}
use native.Mathlib.Omega.{arith}
use systems_drills.Base.Order.{lt_wf}
use systems_drills.Base.Bits.Step.{bit_or_step, bit_and_step}

abbrev pub digit : ℕ → ℕ → ℕ
digit x i = x / 2 ^ i % 2

div-two_pow-suc : (x i : ℕ) → x / 2 ^ suc i ≡ x / 2 / 2 ^ i
div-two_pow-suc x i = rw (pow-suc, mul_comm (2 ^ i) 2, div-div-eq-div-mul)

pub digit-suc : (x i : ℕ) → digit x (suc i) ≡ digit (x / 2) i
digit-suc x i = rw div-two_pow-suc

pub digit-bit_or : (i a b : ℕ) → digit (bit_or a b) i ≡ max (digit a i) (digit b i)
digit-bit_or zero a b = omega (arith, bit_or_step a b)
digit-bit_or (suc i) a b = omega (
  arith,
  digit-suc (bit_or a b) i,
  digit-suc a i,
  digit-suc b i,
  ap (λ (t : ℕ). digit t i) half,
  digit-bit_or i (a / 2) (b / 2),
)
  where
    half : bit_or a b / 2 ≡ bit_or (a / 2) (b / 2)
    half = omega (arith, bit_or_step a b)

pub two_pow_mono : (i j : ℕ) → i ≤ j → 2 ^ i ≤ 2 ^ j
two_pow_mono i j h = pow-le-pow_right (omega arith) h

pub two_pow-pos : (k : ℕ) → 0 < 2 ^ k
two_pow-pos k = one-le-pow k 2 (omega arith)

-- The digits of `x` are ones exactly where `m` has a digit at that place or above.
abbrev pub Fills : ℕ → ℕ → Type 0
Fills m x = (i : ℕ) → (digit x i ≡ 1) ↔ (m / 2 ^ i ≢ 0)

half-Fills : (m x : ℕ) → Fills m x → Fills (m / 2) (x / 2)
half-Fills m x h i = rw (← digit-suc, ← div-two_pow-suc) (h (suc i))

-- Such an `x` is one less than a power of two, the least above `m`.
pub Fills→pow :
    (f m x : ℕ)
    → m < 2 ^ f
    → x < 2 ^ f
    → Fills m x
    → (k : ℕ) × (k ≤ f) × (x + 1 ≡ 2 ^ k) × (m ≤ x) × ((m ≡ 0) × (x ≡ 0) ⊎ (x < 2 * m))
Fills→pow zero m x hm hx h = (0, omega arith, omega arith, omega arith, inl (omega arith))
Fills→pow (suc f) m x hm hx h =
    let (k, kf, e, le, shape) =
      Fills→pow f (m / 2) (x / 2) (omega (arith, pow-suc 2 f)) (omega (arith, pow-suc 2 f))
        (half-Fills m x h) in
    elim (ℕ_discrete m 0) [
      | yes z ↦ (
        0,
        omega arith,
        ground (arith, h 0, shape),
        ground (arith, h 0, shape),
        inl (z, ground (arith, h 0, shape)),
      )
      | no nz ↦ (
        suc k,
        omega arith,
        ground (arith, h 0, pow-suc 2 k),
        ground (arith, h 0),
        inr (ground (arith, h 0, shape)),
      )
    ]

pub bit_and_self : (a : ℕ) → bit_and a a ≡ a
bit_and_self a = WellFounded.induction lt_wf a step
  where
    step : (n : ℕ) → ((m : ℕ) → m < n → bit_and m m ≡ m) → bit_and n n ≡ n
    step zero ih = refl
    step (suc n) ih = omega (arith, bit_and_step (suc n) (suc n), ih (suc n / 2) (omega arith))

-- `c & (c - 1)` clears the lowest one.
abbrev IsPow : ℕ → Type 0
IsPow c = (k : ℕ) × (c ≡ 2 ^ k)

IsPow-of_test : (c : ℕ) → c ≢ 0 → bit_and c (c - 1) ≡ 0 → IsPow c
IsPow-of_test c = WellFounded.induction lt_wf c step
  where
    step :
        (n : ℕ)
        → ((m : ℕ) → m < n → m ≢ 0 → bit_and m (m - 1) ≡ 0 → IsPow m)
        → n ≢ 0
        → bit_and n (n - 1) ≡ 0
        → IsPow n
    step n ih nz e = elim (ℕ_discrete (n % 2) 0) [
      | yes even ↦
          let halves : (n - 1) / 2 ≡ n / 2 - 1 = omega arith in
          let (k, p) =
            ih (n / 2) (omega arith) (omega arith)
              (omega (arith, bit_and_step n (n - 1), ap (bit_and (n / 2)) halves)) in
          (suc k, omega (arith, pow-suc 2 k))
      | no odd ↦
          let halves : (n - 1) / 2 ≡ n / 2 = omega arith in
          (
            0,
            omega
                (arith, bit_and_step n (n - 1), ap (bit_and (n / 2)) halves, bit_and_self (n / 2)),
          )
    ]

test_of_pow : (k : ℕ) → bit_and (2 ^ k) (2 ^ k - 1) ≡ 0
test_of_pow zero = refl
test_of_pow (suc k) = omega (
  arith,
  pow-suc 2 k,
  bit_and_step (2 ^ suc k) (2 ^ suc k - 1),
  ap (λ (t : ℕ). bit_and t ((2 ^ suc k - 1) / 2)) a,
  ap (bit_and (2 ^ k)) b,
  test_of_pow k,
)
  where
    a : 2 ^ suc k / 2 ≡ 2 ^ k
    a = omega (arith, pow-suc 2 k)

    b : (2 ^ suc k - 1) / 2 ≡ 2 ^ k - 1
    b = omega (arith, pow-suc 2 k)

pub pow_test_iff : (c : ℕ) → c ≢ 0 → (bit_and c (c - 1) ≡ 0) ↔ ((k : ℕ) × (c ≡ 2 ^ k))
pow_test_iff c nz = (IsPow-of_test c nz, λ p. rw p.1 (test_of_pow p.0))

half_shift : (x i : ℕ) → x / 2 / 2 ^ i ≡ x / 2 ^ i / 2
half_shift x i =
    div-div-eq-div-mul x 2 (2 ^ i)
    ∙ ap (λ (t : ℕ). x / t) (mul_comm 2 (2 ^ i))
    ∙ sym (div-div-eq-div-mul x (2 ^ i) 2)

-- Shifts compose.
pub div-two_pow-add : (x i s : ℕ) → x / 2 ^ (i + s) ≡ x / 2 ^ i / 2 ^ s
div-two_pow-add x i zero = ground (arith, add-zero i)
div-two_pow-add x i (suc s) =
    x / 2 ^ (i + suc s)
    ≡⟨ ap (λ (t : ℕ). x / 2 ^ t) (omega arith) ⟩ x / 2 ^ suc (i + s)
    ≡⟨ div-two_pow-suc x (i + s) ⟩ x / 2 / 2 ^ (i + s)
    ≡⟨ div-two_pow-add (x / 2) i s ⟩ x / 2 / 2 ^ i / 2 ^ s
    ≡⟨ ap (λ (t : ℕ). t / 2 ^ s) (half_shift x i) ⟩ x / 2 ^ i / 2 / 2 ^ s
    ≡⟨ sym (div-two_pow-suc (x / 2 ^ i) s) ⟩ x / 2 ^ i / 2 ^ suc s ∎

pub bit_or-lt : (k a b : ℕ) → a < 2 ^ k → b < 2 ^ k → bit_or a b < 2 ^ k
bit_or-lt zero a b p q = omega (arith, bit_or_step a b, bit_or-zero_zero a b)
  where
    bit_or-zero_zero : (a b : ℕ) → a < 1 → b < 1 → bit_or a b ≡ 0
    bit_or-zero_zero zero zero p q = refl
    bit_or-zero_zero zero (suc b) p q = absurd (omega arith)
    bit_or-zero_zero (suc a) b p q = absurd (omega arith)
bit_or-lt (suc k) a b p q = omega (arith, pow-suc 2 k, bit_or_step a b, bit_or-lt k (a / 2) (b / 2))

two_pow-dvd : (k j : ℕ) → k ≤ j → 2 ^ k ∣ 2 ^ j
two_pow-dvd k zero h = rw (le_antisymm {n = k} {m = 0} h (omega arith)) (dvd_refl 1)
two_pow-dvd k (suc j) h = elim (dec_lt j k) [
  | yes top ↦ rw (le_antisymm {n = k} {m = suc j} h top) (dvd_refl _)
  | no below ↦ rw (pow-suc 2 j) (dvd-mul_right_of_dvd (2 ^ k) (two_pow-dvd k j (omega arith)) 2)
]

-- A wrap at 64 bits does not change the low digits.
pub wrap-mod : (k x : ℕ) → k ≤ 64 → x % 2 ^ 64 % 2 ^ k ≡ x % 2 ^ k
wrap-mod k x h = mod-mod_of_dvd (2 ^ k) {b = 2 ^ 64} x (two_pow-dvd k 64 h)

pub two_pow-mod : (i j : ℕ) → i ≤ j → 2 ^ j % 2 ^ i ≡ 0
two_pow-mod i j h = mod-eq-zero_of_dvd (2 ^ i) (two_pow-dvd i j h)
