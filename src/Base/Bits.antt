-- ===== src/Base/Bits.antt =====
-- Bitwise operations at variables: masks of low bits, shifts, and the 64-bit wrap.
mod Step
pub mod Digit
pub use Step.{bit_or_step, bit_and_step}
use Prim.Native.Nat.{
  ℕ, zero, suc, ◌+◌, ◌-◌, ◌*◌, ◌/◌, ◌%◌, ◌^◌, ◌<◌, ◌≤◌, bit_and, bit_or, max, min,
}
use mathlib.Core.Path.{◌≡◌, refl, sym, ap, ◌∙◌}
use mathlib.Core.WellFounded
use native.Mathlib.Nat.{
  pow-suc, one-le-pow, le_refl, mod-lt, mod-eq_of_lt, mul-add-mod_self_right, div-add-mod',
}
use native.Mathlib.Decide.{ℕ_discrete}
use native.Mathlib.Omega.{arith}
use systems_drills.Base.Order.{lt_wf}

-- uint64_t and size_t arithmetic.
abbrev pub word : ℕ
word = 2 ^ 64

abbrev pub add64 : ℕ → ℕ → ℕ
add64 a b = (a + b) % word

abbrev pub sub64 : ℕ → ℕ → ℕ
sub64 a b = (a + word - b) % word

abbrev pub mul64 : ℕ → ℕ → ℕ
mul64 a b = (a * b) % word

-- With the second argument 0, by the bound `d` on the first.
and_zero_below : (d a : ℕ) → a ≤ d → bit_and a 0 ≡ 0
and_zero_below zero a h = omega (arith, bit_and_step a 0, ap (λ (t : ℕ). bit_and t 0) none_left)
  where
    none_left : a / 2 ≡ 0
    none_left = omega arith
and_zero_below (suc d) a h = elim (ℕ_discrete a 0) [
  | yes z ↦ rw z
  | no nz ↦ omega (arith, bit_and_step a 0, and_zero_below d (a / 2) (omega arith))
]

pub bit_and-zero : (a : ℕ) → bit_and a 0 ≡ 0
bit_and-zero a = and_zero_below a a (le_refl a)

pub mul-two_pow-suc : (q k : ℕ) → q * 2 ^ suc k ≡ 2 * (q * 2 ^ k)
mul-two_pow-suc q k = omega (arith, ap (λ (t : ℕ). q * t) (pow-suc 2 k))

low_digits : (k a : ℕ) → a / 2 % 2 ^ k * 2 + a % 2 ≡ a % 2 ^ suc k
low_digits k a =
    sym (mod-eq_of_lt small)
    ∙ sym (mul-add-mod_self_right (a / 2 / 2 ^ k) (2 ^ suc k) (a / 2 % 2 ^ k * 2 + a % 2))
    ∙ ap (λ (t : ℕ). t % 2 ^ suc k) whole
  where
    small : a / 2 % 2 ^ k * 2 + a % 2 < 2 ^ suc k
    small = omega (arith, pow-suc 2 k, mod-lt (a / 2) (one-le-pow k 2 (omega arith)))

    whole : a / 2 / 2 ^ k * 2 ^ suc k + (a / 2 % 2 ^ k * 2 + a % 2) ≡ a
    whole = omega (arith, mul-two_pow-suc (a / 2 / 2 ^ k) k, div-add-mod' (a / 2) (2 ^ k))

-- Masking with the `k` low bits is the remainder by `2 ^ k`.
pub bit_and_mask : (k a : ℕ) → bit_and a (2 ^ k - 1) ≡ a % 2 ^ k
bit_and_mask zero a = omega (arith, bit_and-zero a)
bit_and_mask (suc k) a = omega (
  arith,
  bit_and_step a (2 ^ suc k - 1),
  ap (bit_and (a / 2)) half,
  bit_and_mask k (a / 2),
  low_digits k a,
  pow-suc 2 k,
  one-le-pow k 2,
)
  where
    half : (2 ^ suc k - 1) / 2 ≡ 2 ^ k - 1
    half = omega (arith, pow-suc 2 k)
