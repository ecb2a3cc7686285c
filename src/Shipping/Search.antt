-- ===== src/Shipping/Search.antt =====
-- `ship_within_days`: the bisection between the heaviest package and the sum.
use native.Mathlib.Nat.{add-zero}
use systems_drills.Base.{
  ℕ, zero, suc, ◌+◌, ◌-◌, ◌/◌, ◌^◌, ◌≤◌, ◌<◌, ◌≡◌, ◌≢◌, inl, inr, refl, sym, ◌∙◌, subst, true,
  false, some, List, [], ◌∷◌, ◌++◌, append-nil, arith, ltb, lt→ltb, le→ltb, dec_lt, if◌then◌else◌,
  Bool-cases,
}
use systems_drills.Shipping.Greedy.{concat, AllWithin, Plan, can_ship_iff}
use systems_drills.Shipping.{ship_within_days}
use systems_drills.Shipping.Plain.{
  total, plain_can, plain_bounds, plain_search, bounds-plain_bounds, search_loop-plain_search,
}

AllWithin-mono : (c d : ℕ) (gs : List (List ℕ)) → c ≤ d → AllWithin c gs → AllWithin d gs
AllWithin-mono c d [] le w = tt
AllWithin-mono c d (g ∷ gs) le (fits, w) = (omega (arith, fits), AllWithin-mono c d gs le w)

Plan-mono : (c d days : ℕ) (weights : List ℕ) → c ≤ d → Plan c days weights → Plan d days weights
Plan-mono c d days weights le p = record {
  groups = p.groups;
  all = p.all;
  within = AllWithin-mono c d p.groups le p.within;
  few = p.few;
}

-- Every package is light enough for a plan.
abbrev AllLe : ℕ → List ℕ → Type 0
AllLe c [] = Unit
AllLe c (w ∷ ws) = (w ≤ c) × AllLe c ws

AllLe-groups :
    (c : ℕ) (gs : List (List ℕ)) (g : List ℕ)
    → total g ≤ c
    → AllWithin c gs
    → AllLe c (g ++ concat gs)
AllLe-groups c [] [] fits within = tt
AllLe-groups c (h ∷ gs) [] fits (h_fits, within) = AllLe-groups c gs h h_fits within
AllLe-groups c gs (w ∷ g) fits within =
    (omega (arith, fits), AllLe-groups c gs g (omega (arith, fits)) within)

AllLe-Plan : (c days : ℕ) (weights : List ℕ) → Plan c days weights → AllLe c weights
AllLe-Plan c days weights p =
    subst (AllLe c) p.all (AllLe-groups c p.groups [] (omega arith) p.within)

-- The two ends.
plain_bounds_hi : (ws : List ℕ) (lo hi : ℕ) → (plain_bounds ws lo hi).1 ≡ hi + total ws
unfolding plain_bounds
plain_bounds_hi [] lo hi = sym (add-zero hi)
plain_bounds_hi (w ∷ ws) lo hi =
    plain_bounds_hi ws (if ltb lo w then w else lo) (hi + w) ∙ omega arith

plain_bounds_lo : (ws : List ℕ) (lo hi c : ℕ) → lo ≤ c → AllLe c ws → (plain_bounds ws lo hi).0 ≤ c
unfolding plain_bounds
plain_bounds_lo [] lo hi c le all = le
plain_bounds_lo (w ∷ ws) lo hi c le (light, all) =
    plain_bounds_lo ws (if ltb lo w then w else lo) (hi + w) c
      (elim (Bool-cases (ltb lo w)) [ inl e ↦ rw e light | inr e ↦ rw e le ]) all

module _ (weights : List ℕ) (days : ℕ) (some_day : 1 ≤ days) where
  -- `c` is a capacity with a plan, and the least.
  abbrev Least : ℕ → Type 0
  Least c = Plan c days weights × ((d : ℕ) → Plan d days weights → c ≤ d)

  search_done : (fuel lo hi : ℕ) → hi ≤ lo → plain_search (suc fuel) weights days lo hi ≡ some lo
  unfolding plain_search
  search_done fuel lo hi le = rw (le→ltb lo hi le) refl

  search_lower :
      (fuel lo hi : ℕ)
      → lo < hi
      → plain_can weights days (lo + (hi - lo) / 2) ≡ true
      → plain_search (suc fuel) weights days lo hi
        ≡ plain_search fuel weights days lo (lo + (hi - lo) / 2)
  unfolding plain_search
  search_lower fuel lo hi lt can = rw (lt→ltb lo hi lt, can) refl

  search_upper :
      (fuel lo hi : ℕ)
      → lo < hi
      → plain_can weights days (lo + (hi - lo) / 2) ≡ false
      → plain_search (suc fuel) weights days lo hi
        ≡ plain_search fuel weights days (lo + (hi - lo) / 2 + 1) hi
  unfolding plain_search
  search_upper fuel lo hi lt can = rw (lt→ltb lo hi lt, can) refl

  -- With a plan at `hi`, and none below `lo`, the fuel suffices and the result is the least.
  plain_search_lem :
      (fuel lo hi : ℕ)
      → hi - lo < fuel
      → Plan hi days weights
      → ((d : ℕ) → Plan d days weights → lo ≤ d)
      → (c : ℕ) × (plain_search fuel weights days lo hi ≡ some c) × Least c
  plain_search_lem zero lo hi enough plan lower = absurd (omega arith)
  plain_search_lem (suc fuel) lo hi enough plan lower = elim (dec_lt lo hi) [
    | no done ↦ (
      lo,
      search_done fuel lo hi (omega arith),
      (subst (λ c. Plan c days weights) (omega (arith, lower hi plan)) plan, lower),
    )
    | yes lt ↦ elim (Bool-cases (plain_can weights days (lo + (hi - lo) / 2))) [
      | inl can ↦
          let (c, e, least) =
            plain_search_lem fuel lo (lo + (hi - lo) / 2) (omega arith)
              ((can_ship_iff weights days (lo + (hi - lo) / 2) some_day).0 can) lower in
          (c, search_lower fuel lo hi lt can ∙ e, least)
      | inr cannot ↦
          let (c, e, least) =
            plain_search_lem fuel (lo + (hi - lo) / 2 + 1) hi (omega arith) plan (above cannot) in
          (c, search_upper fuel lo hi lt cannot ∙ e, least)
    ]
  ]
    where
      above :
          plain_can weights days (lo + (hi - lo) / 2) ≡ false
          → (d : ℕ) → Plan d days weights
          → lo + (hi - lo) / 2 + 1 ≤ d
      above cannot d p = elim (dec_lt (lo + (hi - lo) / 2) d) [
        | yes more ↦ omega arith
        | no less ↦ absurd (
            true_ne (
              sym (
                (can_ship_iff weights days (lo + (hi - lo) / 2) some_day).1
                  (Plan-mono d (lo + (hi - lo) / 2) days weights (omega arith) p))
              ∙ cannot))
      ]
        where
          true_ne : true ≢ false
          true_ne e = cc

  -- All the packages on one day.
  one_group : Plan (total weights) days weights
  one_group = record {
    groups = weights ∷ [];
    all = append-nil weights;
    within = (omega arith, tt);
    few = some_day;
  }

-- For one package or more whose weights have a sum below 2 ^ 31, and one day or more, no sum
-- overflows, the search ends, and its result is the least capacity with which the packages, in their
-- order, can be split into at most that many groups, none of them heavier than the capacity.
pub ship_within_days_lem :
    (first : ℕ) (rest : List ℕ) (days : ℕ)
    → total (first ∷ rest) < 2 ^ 31
    → 1 ≤ days
    → (c : ℕ) × (ship_within_days (first ∷ rest) days ≡ some c)
      × Plan c days (first ∷ rest)
      × ((d : ℕ) → Plan d days (first ∷ rest) → c ≤ d)
unfolding ship_within_days
ship_within_days_lem first rest days fits some_day =
    let weights = first ∷ rest in
    let (lo, hi) = plain_bounds weights first 0 in
    let (c, e, least) =
      plain_search_lem weights days some_day (suc (hi - lo)) lo hi (omega arith)
        (subst (λ h. Plan h days weights) (sym (plain_bounds_hi weights first 0 ∙ omega arith))
          (one_group weights days some_day))
        (λ d p.
          plain_bounds_lo weights first 0 d (AllLe-Plan d days weights p).0
            (AllLe-Plan d days weights p)) in
    (
      c,
      rw (bounds-plain_bounds weights first 0 (omega (arith, fits)))
          (search_loop-plain_search (suc (hi - lo)) weights days lo hi fits ∙ e),
      least.0,
      least.1,
    )
