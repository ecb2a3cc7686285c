-- ===== src/Base/Bits/Step.antt =====
-- The native bit operations are defined by a recursion on digits that carries a bound on its depth.
-- A bound that is enough can be lowered to the number itself, so each operation satisfies an
-- equation for its lowest digit.
use Prim.Native.Nat.{
  ℕ, zero, suc, ◌+◌, ◌*◌, ◌/◌, ◌%◌, ◌≤◌, min, max, digits, bit_and, bit_or, bit_and-bitwise,
  bit_or-bitwise,
}
use mathlib.Core.Path.{◌≡◌, refl, sym, ◌∙◌, ap}
use native.Mathlib.Decide.{ℕ_discrete}
use native.Mathlib.Omega.{arith}

module _ (rest : ℕ → ℕ) (low : ℕ → ℕ → ℕ) where
  -- One level more than needed.
  deeper : (d x y : ℕ) → x ≤ d → digits rest low (suc d) x y ≡ digits rest low d x y
  deeper zero zero y h = refl
  deeper zero (suc x) y h = absurd (omega arith)
  deeper (suc d) zero y h = refl
  deeper (suc d) (suc x) y h =
      ap (λ (t : ℕ). t * 2 + low (suc x % 2) (y % 2)) (deeper d (suc x / 2) (y / 2) (omega arith))

  pub exact : (d x y : ℕ) → x ≤ d → digits rest low d x y ≡ digits rest low x x y
  exact zero zero y h = refl
  exact zero (suc x) y h = absurd (omega arith)
  exact (suc d) x y h = elim (ℕ_discrete x (suc d)) [
    | yes same ↦ ap (λ (t : ℕ). digits rest low t x y) (sym same)
    | no less ↦ deeper d x y (omega arith) ∙ exact d x y (omega arith)
  ]

pub bit_and_step : (x y : ℕ) → bit_and x y ≡ bit_and (x / 2) (y / 2) * 2 + min (x % 2) (y % 2)
bit_and_step zero y = omega (arith, bit_and-bitwise 0 y, bit_and-bitwise 0 (y / 2))
bit_and_step (suc x) y = omega (
  arith,
  bit_and-bitwise (suc x) y,
  bit_and-bitwise (suc x / 2) (y / 2),
  exact (λ _. 0) min x (suc x / 2) (y / 2) (omega arith),
)

pub bit_or_step : (x y : ℕ) → bit_or x y ≡ bit_or (x / 2) (y / 2) * 2 + max (x % 2) (y % 2)
bit_or_step zero y = omega (arith, bit_or-bitwise 0 y, bit_or-bitwise 0 (y / 2))
bit_or_step (suc x) y = omega (
  arith,
  bit_or-bitwise (suc x) y,
  bit_or-bitwise (suc x / 2) (y / 2),
  exact (λ t. t) max x (suc x / 2) (y / 2) (omega arith),
)
