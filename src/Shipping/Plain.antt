-- ===== src/Shipping/Plain.antt =====
-- The loops of 13-ship-packages.c on natural numbers, for the proofs, and when the checked ones agree
-- with them.
use systems_drills.Base.{
  ℕ, zero, suc, ◌+◌, ◌-◌, ◌/◌, ◌^◌, ◌<◌, ◌≡◌, refl, ap, ◌∙◌, Bool, Option, none, some, List, [],
  ◌∷◌, arith, ltb, lt→ltb, if◌then◌else◌, Bool-cases, inl, inr, ◌>>=◌,
}
use systems_drills.Shipping.{add_int, ship_loop, can_ship, at_most, bounds, search_loop}

unfoldable pub plain_loop : List ℕ → ℕ → ℕ → ℕ → Option ℕ
plain_loop [] cap load used = some used
plain_loop (w ∷ weights) cap load used =
    let over = ltb cap (load + w) in
    let rest =
      plain_loop weights cap (if over then w else load + w) (if over then used + 1 else used) in
    if ltb cap w then none else rest

unfoldable pub plain_can : List ℕ → ℕ → ℕ → Bool
plain_can weights days cap = at_most days (plain_loop weights cap 0 1)

unfoldable pub plain_bounds : List ℕ → ℕ → ℕ → ℕ × ℕ
plain_bounds [] lo hi = (lo, hi)
plain_bounds (w ∷ weights) lo hi = plain_bounds weights (if ltb lo w then w else lo) (hi + w)

unfoldable pub plain_search : ℕ → List ℕ → ℕ → ℕ → ℕ → Option ℕ
plain_search zero weights days lo hi = none
plain_search (suc fuel) weights days lo hi =
    let mid = lo + (hi - lo) / 2 in
    let can = plain_can weights days mid in
    let rest =
      plain_search fuel weights days (if can then lo else mid + 1) (if can then mid else hi) in
    if ltb lo hi then rest else some lo

abbrev pub total : List ℕ → ℕ
total [] = 0
total (w ∷ ws) = w + total ws

abbrev pub int_end : ℕ
int_end = 2 ^ 31

add_int-fits : (a b : ℕ) → a + b < int_end → add_int a b ≡ some (a + b)
unfolding add_int
add_int-fits a b lt = rw (lt→ltb (a + b) int_end lt) refl

pub ship_loop-plain_loop :
    (ws : List ℕ) (cap load used : ℕ)
    → load + total ws < int_end
    → ship_loop ws cap load used ≡ some (plain_loop ws cap load used)
unfolding ship_loop plain_loop
ship_loop-plain_loop [] cap load used fits = refl
ship_loop-plain_loop (w ∷ ws) cap load used fits = elim (Bool-cases (ltb cap w)) [
  | inl heavy ↦ rw heavy refl
  | inr light ↦ elim (Bool-cases (ltb cap (load + w))) [
    | inl over ↦
        rw (light, add_int-fits load w (omega arith), over, add_int-fits 0 w (omega arith))
          (ap (λ x. ship_loop ws cap x (used + 1)) (omega arith)
            ∙ ship_loop-plain_loop ws cap w (used + 1) (omega arith))
    | inr room ↦
        rw (light, add_int-fits load w (omega arith), room, add_int-fits load w (omega arith))
          (ship_loop-plain_loop ws cap (load + w) used (omega arith))
  ]
]

can_ship-plain_can :
    (ws : List ℕ) (days cap : ℕ)
    → total ws < int_end
    → can_ship ws days cap ≡ some (plain_can ws days cap)
unfolding can_ship plain_can
can_ship-plain_can ws days cap fits =
    ap (λ r. r >>= (λ shipped. some (at_most days shipped)))
      (ship_loop-plain_loop ws cap 0 1 (omega arith))

pub bounds-plain_bounds :
    (ws : List ℕ) (lo hi : ℕ)
    → hi + total ws < int_end
    → bounds ws lo hi ≡ some (plain_bounds ws lo hi)
unfolding bounds plain_bounds
bounds-plain_bounds [] lo hi fits = refl
bounds-plain_bounds (w ∷ ws) lo hi fits =
    rw (add_int-fits hi w (omega arith))
      (bounds-plain_bounds ws (if ltb lo w then w else lo) (hi + w) (omega arith))

pub search_loop-plain_search :
    (fuel : ℕ) (ws : List ℕ) (days lo hi : ℕ)
    → total ws < int_end
    → search_loop fuel ws days lo hi ≡ plain_search fuel ws days lo hi
unfolding search_loop plain_search
search_loop-plain_search zero ws days lo hi fits = refl
search_loop-plain_search (suc fuel) ws days lo hi fits = elim (Bool-cases (ltb lo hi)) [
  | inr done ↦ rw done refl
  | inl more ↦
      rw (more, can_ship-plain_can ws days (lo + (hi - lo) / 2) fits)
        (search_loop-plain_search fuel ws days
          (if plain_can ws days (lo + (hi - lo) / 2) then lo else lo + (hi - lo) / 2 + 1)
          (if plain_can ws days (lo + (hi - lo) / 2) then lo + (hi - lo) / 2 else hi) fits)
]
