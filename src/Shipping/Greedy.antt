-- ===== src/Shipping/Greedy.antt =====
-- `can_ship`: the loop that loads greedily, and the plans that it is compared with.
use systems_drills.Base.{
  ℕ, suc, ◌+◌, ◌≤◌, ◌<◌, ◌≡◌, ◌≢◌, ◌⊎◌, ◌↔◌, inl, inr, refl, sym, ap, ◌∙◌, true, false, none, some,
  List, [], ◌∷◌, ◌++◌, arith, length, leb→le, lt→ltb, le→ltb, dec_lt, dec_le, Option-cases,
  some_inj,
}
use systems_drills.Shipping.{at_most}
use systems_drills.Shipping.Plain.{total, plain_loop, plain_can}

abbrev pub concat : List (List ℕ) → List ℕ
concat [] = []
concat (g ∷ gs) = g ++ concat gs

abbrev pub AllWithin : ℕ → List (List ℕ) → Type 0
AllWithin cap [] = Unit
AllWithin cap (g ∷ gs) = (total g ≤ cap) × AllWithin cap gs

-- The packages in order, a group for each day, no group heavier than `cap`.
pub record Plan (cap days : ℕ) (weights : List ℕ) : Type 0 where
  pub groups : List (List ℕ)
  pub all : concat groups ≡ weights
  pub within : AllWithin cap groups
  pub few : length groups ≤ days

-- The packages left go after what is loaded and in further groups.
record Rest (cap load more : ℕ) (weights : List ℕ) : Type 0 where
  first : List ℕ
  others : List (List ℕ)
  all : first ++ concat others ≡ weights
  fits : load + total first ≤ cap
  within : AllWithin cap others
  count : length others ≡ more

loop_stay :
    (w : ℕ) (ws : List ℕ) (cap load used : ℕ)
    → load + w ≤ cap
    → plain_loop (w ∷ ws) cap load used ≡ plain_loop ws cap (load + w) used
unfolding plain_loop
loop_stay w ws cap load used le = rw (le→ltb cap (load + w) le, le→ltb cap w (omega arith)) refl

loop_over :
    (w : ℕ) (ws : List ℕ) (cap load used : ℕ)
    → w ≤ cap
    → cap < load + w
    → plain_loop (w ∷ ws) cap load used ≡ plain_loop ws cap w (used + 1)
unfolding plain_loop
loop_over w ws cap load used le over = rw (lt→ltb cap (load + w) over, le→ltb cap w le) refl

loop_heavy :
    (w : ℕ) (ws : List ℕ) (cap load used : ℕ) → cap < w → plain_loop (w ∷ ws) cap load used ≡ none
unfolding plain_loop
loop_heavy w ws cap load used heavy = rw (lt→ltb cap w heavy) refl

-- The days that the loop counts are those of a plan.
loop-Rest :
    (ws : List ℕ) (cap load used u : ℕ)
    → load ≤ cap
    → plain_loop ws cap load used ≡ some u
    → (more : ℕ) × (used + more ≡ u) × Rest cap load more ws
unfolding plain_loop
loop-Rest [] cap load used u le e = (
  0,
  omega (arith, some_inj e),
  record { first = []; others = []; all = refl; fits = omega arith; within = tt; count = refl },
)
loop-Rest (w ∷ ws) cap load used u le e = elim (dec_lt cap w) [
  | yes heavy ↦ absurd (none_ne (sym (loop_heavy w ws cap load used heavy) ∙ e))
  | no light ↦ elim (dec_le (load + w) cap) [
    | yes stays ↦
        let (more, c, r) =
          loop-Rest ws cap (load + w) used u stays (sym (loop_stay w ws cap load used stays) ∙ e) in
        (
          more,
          c,
          record {
            first = w ∷ r.first;
            others = r.others;
            all = ap (λ q. w ∷ q) r.all;
            fits = omega (arith, r.fits);
            within = r.within;
            count = r.count;
          },
        )
    | no over ↦
        let (more, c, r) =
          loop-Rest ws cap w (used + 1) u (omega arith)
            (sym (loop_over w ws cap load used (omega arith) (omega arith)) ∙ e) in
        (
          suc more,
          omega (arith, c),
          record {
            first = [];
            others = (w ∷ r.first) ∷ r.others;
            all = ap (λ q. w ∷ q) r.all;
            fits = omega arith;
            within = (r.fits, r.within);
            count = ap suc r.count;
          },
        )
  ]
]
  where
    none_ne : {u : ℕ} → none ≢ some u
    none_ne e = cc

-- The loop has used fewer days than a plan has, or as many with no more loaded.
abbrev Ahead : ℕ → ℕ → ℕ → ℕ → Type 0
Ahead used load used' load' = (used < used') ⊎ (used ≡ used') × (load ≤ load')

loop_best :
    (gs : List (List ℕ)) (g : List ℕ) (cap load used load' used' : ℕ)
    → load' + total g ≤ cap
    → AllWithin cap gs
    → Ahead used load used' load'
    → (u : ℕ) × (plain_loop (g ++ concat gs) cap load used ≡ some u) × (u ≤ used' + length gs)
unfolding plain_loop
loop_best [] [] cap load used load' used' fits within (inl less) = (used, refl, omega arith)
loop_best [] [] cap load used load' used' fits within (inr (same, le)) = (used, refl, omega arith)
loop_best (h ∷ gs) [] cap load used load' used' fits (h_fits, within) ahead =
    let (u, e, le) =
      loop_best gs h cap load used 0 (used' + 1) (omega (arith, h_fits)) within (next_day ahead) in
    (u, e, omega arith)
  where
    next_day : Ahead used load used' load' → Ahead used load (used' + 1) 0
    next_day (inl less) = inl (omega arith)
    next_day (inr (same, le)) = inl (omega arith)
loop_best gs (w ∷ g) cap load used load' used' fits within ahead = elim (dec_le (load + w) cap) [
  | yes stays ↦
      let (u, e, le) =
        loop_best gs g cap (load + w) used (load' + w) used' (omega (arith, fits)) within
          (both_load ahead) in
      (u, loop_stay w (g ++ concat gs) cap load used stays ∙ e, le)
  | no over ↦
      let (u, e, le) =
        loop_best gs g cap w (used + 1) (load' + w) used' (omega (arith, fits)) within
          (catches_up over ahead) in
      (u, loop_over w (g ++ concat gs) cap load used (omega (arith, fits)) (omega arith) ∙ e, le)
]
  where
    both_load : Ahead used load used' load' → Ahead used (load + w) used' (load' + w)
    both_load (inl less) = inl less
    both_load (inr (same, le)) = inr (same, omega arith)

    catches_up :
        ¬ (load + w ≤ cap) → Ahead used load used' load' → Ahead (used + 1) w used' (load' + w)
    catches_up over (inl less) = elim (dec_lt (used + 1) used') [
      | yes still ↦ inl still
      | no now ↦ inr (omega arith, omega arith)
    ]
    catches_up over (inr (same, le)) = absurd (over (omega (arith, fits)))

-- `plain_can` decides whether there is a plan.
pub can_ship_iff :
    (weights : List ℕ) (days cap : ℕ)
    → 1 ≤ days
    → (plain_can weights days cap ≡ true) ↔ Plan cap days weights
unfolding plain_can plain_loop
can_ship_iff weights days cap some_day = (to_plan, from_plan)
  where
    to_plan : at_most days (plain_loop weights cap 0 1) ≡ true → Plan cap days weights
    to_plan yes_can = elim (Option-cases (plain_loop weights cap 0 1)) [
      | inl e ↦ absurd (false_ne (sym (ap (at_most days) e) ∙ yes_can))
      | inr (u, e) ↦
          let (more, c, r) = loop-Rest weights cap 0 1 u (omega arith) e in
          record {
            groups = r.first ∷ r.others;
            all = r.all;
            within = (omega (arith, r.fits), r.within);
            few = omega (arith, c, r.count, leb→le u days (sym (ap (at_most days) e) ∙ yes_can));
          }
    ]
      where
        false_ne : false ≢ true
        false_ne e = cc

    within_days :
        (u : ℕ)
        → plain_loop weights cap 0 1 ≡ some u
        → u ≤ days
        → at_most days (plain_loop weights cap 0 1) ≡ true
    within_days u e le = ap (at_most days) e ∙ ground arith

    by_groups :
        (groups : List (List ℕ))
        → concat groups ≡ weights
        → AllWithin cap groups
        → length groups ≤ days
        → at_most days (plain_loop weights cap 0 1) ≡ true
    by_groups [] all within few =
        within_days 1 (ap (λ ws. plain_loop ws cap 0 1) (sym all)) some_day
    by_groups (g ∷ gs) all within few =
        let (u, e, le) =
          loop_best gs g cap 0 1 0 1 (omega (arith, within.0)) within.1 (inr (refl, omega arith)) in
        within_days u (ap (λ ws. plain_loop ws cap 0 1) (sym all) ∙ e) (omega (arith, few))

    from_plan : Plan cap days weights → at_most days (plain_loop weights cap 0 1) ≡ true
    from_plan p = by_groups p.groups p.all p.within p.few
