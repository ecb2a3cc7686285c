-- ===== src/Shipping.antt =====
-- Interview/leetcode/13-ship-packages.c: the least capacity with which packages in a fixed order are
-- shipped in a number of days.
-- Weights and days are natural numbers below 2 ^ 31: an int that is not negative. A sum of weights that
-- does not fit an int is undefined behaviour, `none`.
pub mod Plain
pub mod Greedy
pub mod Search
mod Tests
use systems_drills.Base.{
  ℕ, zero, suc, ◌+◌, ◌-◌, ◌/◌, Bool, true, false, Option, none, some, List, [], ◌∷◌, ltb, leb,
  if◌then◌else◌, ◌^◌, ◌>>=◌,
}

-- The sum of two ints.
unfoldable pub add_int : ℕ → ℕ → Option ℕ
add_int a b = if ltb (a + b) (2 ^ 31) then some (a + b) else none

-- The loop of `can_ship`; `some none` is `return false`. `used` is at most the number of packages.
unfoldable pub ship_loop : List ℕ → ℕ → ℕ → ℕ → Option (Option ℕ)
ship_loop [] cap load used = some (some used)
ship_loop (w ∷ weights) cap load used =
    let rest = λ (load' used' : ℕ). ship_loop weights cap load' used' in
    if ltb cap w then some none else (do
      sum ← add_int load w
      let over = ltb cap sum
      load' ← add_int (if over then 0 else load) w
      rest load' (if over then used + 1 else used))

abbrev pub at_most : ℕ → Option ℕ → Bool
at_most days none = false
at_most days (some used) = leb used days

unfoldable pub can_ship : List ℕ → ℕ → ℕ → Option Bool
can_ship weights days cap = do shipped ← ship_loop weights cap 0 1; some (at_most days shipped)

-- The `for` of `ship_within_days`: the heaviest package and the sum.
unfoldable pub bounds : List ℕ → ℕ → ℕ → Option (ℕ × ℕ)
bounds [] lo hi = some (lo, hi)
bounds (w ∷ weights) lo hi =
    let rest = λ (hi' : ℕ). bounds weights (if ltb lo w then w else lo) hi' in
    do hi' ← add_int hi w; rest hi'

-- Its `while`; `none` is also the end of the fuel.
unfoldable pub search_loop : ℕ → List ℕ → ℕ → ℕ → ℕ → Option ℕ
search_loop zero weights days lo hi = none
search_loop (suc fuel) weights days lo hi =
    let mid = lo + (hi - lo) / 2 in
    let rest = λ (lo' hi' : ℕ). search_loop fuel weights days lo' hi' in
    if ltb lo hi
    then (do
      can ← can_ship weights days mid
      rest (if can then lo else mid + 1) (if can then mid else hi))
    else some lo

-- `none` is also the read of `weights[0]` where there is none. The range shrinks in each round.
unfoldable pub ship_within_days : List ℕ → ℕ → Option ℕ
ship_within_days [] days = none
ship_within_days (first ∷ rest) days = do
  (lo, hi) ← bounds (first ∷ rest) first 0
  search_loop (suc (hi - lo)) (first ∷ rest) days lo hi
