-- ===== src/Shipping/Tests.antt =====
-- The blocks of `main`, and the theorem at the first.
use systems_drills.Base.{ℕ, ◌≤◌, ◌≡◌, refl, Option, some, none, [], ◌∷◌, arith}
use systems_drills.Shipping.{add_int, ship_loop, can_ship, bounds, search_loop, ship_within_days}
use systems_drills.Shipping.Greedy.{Plan}
use systems_drills.Shipping.Search.{ship_within_days_lem}

abbrev ship_three_days : Option ℕ
ship_three_days = ship_within_days (1 ∷ 2 ∷ 3 ∷ 4 ∷ 5 ∷ []) 3

abbrev ship_one_package : Option ℕ
ship_one_package = ship_within_days (6 ∷ []) 1

main_results : (ship_three_days ≡ some 6) × (ship_one_package ≡ some 6)
unfolding add_int ship_loop can_ship bounds search_loop ship_within_days
main_results = (refl, refl)

-- A sum that does not fit an int.
too_heavy : ship_within_days (2000000000 ∷ 2000000000 ∷ []) 1 ≡ none
unfolding ship_within_days bounds add_int
too_heavy = refl

nothing : ship_within_days [] 1 ≡ none
unfolding ship_within_days
nothing = refl

ship_within_days_lem_example :
    (c : ℕ) × (ship_within_days (1 ∷ 2 ∷ 3 ∷ 4 ∷ 5 ∷ []) 3 ≡ some c)
    × Plan c 3 (1 ∷ 2 ∷ 3 ∷ 4 ∷ 5 ∷ [])
    × ((d : ℕ) → Plan d 3 (1 ∷ 2 ∷ 3 ∷ 4 ∷ 5 ∷ []) → c ≤ d)
ship_within_days_lem_example =
    ship_within_days_lem 1 (2 ∷ 3 ∷ 4 ∷ 5 ∷ []) 3 (omega arith) (omega arith)
