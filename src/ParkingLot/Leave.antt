-- ===== src/ParkingLot/Leave.antt =====
-- `deassigner` on a valid lot, and leaving after parking.
use systems_drills.Base.{
  ℕ, ◌+◌, ◌-◌, ◌<◌, ◌≡◌, ◌≢◌, ◌⊎◌, inl, inr, refl, Bool, true, false, ◌||◌, some, List, [], ◌∷◌,
  arith, leb, length, get_or, set, store?-eq-set, get_or-set_self, Bool-cases, sym, ap, ◌∙◌,
  some_inj, ap₂, subst, zero, suc,
}
use systems_drills.Base.Bits.{add64}
use systems_drills.ParkingLot.{
  Size, Vehicle, Ticket, Spot, Lot, Counts, count_of, set_count, is_free, spot_at, sizes_from,
  smallest_fit, assigner, deassigner,
}
use systems_drills.ParkingLot.Scan.{FirstFree, no_spot, spot_of, get_spot}
use systems_drills.ParkingLot.Count.{ValidLot, one_if, count_free_lt, none_of_count_free}
use systems_drills.ParkingLot.Park.{
  InLot, with_spot, with_spot-Valid, parked, FirstFit, in_block, free_spot, assigner-FirstFit,
}

-- The lot with a taken spot given back.
abbrev pub freed : Lot → Ticket → Lot
freed lot t =
    let s = (spot_of lot t.level t.spot).size in
    with_spot lot s t false (count_of lot.free_count s + 1)

deassigner-out :
    (lot : Lot) (t : Ticket)
    → leb lot.levels t.level || leb lot.spots_floor t.spot ≡ true
    → deassigner lot t ≡ some (false, lot)
unfolding deassigner
deassigner-out lot t e = rw e

deassigner-free :
    (lot : Lot) (t : Ticket)
    → ValidLot lot
    → InLot lot t
    → (spot_of lot t.level t.spot).occupied ≡ false
    → deassigner lot t ≡ some (false, lot)
unfolding deassigner
deassigner-free lot t v (p, q) e = ground (arith, get_spot lot t.level t.spot v.has_spots p q)

taken_share : (s : Size) (sp : Spot) → sp.occupied ≡ true → is_free s sp ≡ false
taken_share s sp e = ground arith

add64-one :
    (lot : Lot) (t : Ticket) (s : Size)
    → ValidLot lot
    → InLot lot t
    → (spot_of lot t.level t.spot).occupied ≡ true
    → add64 (count_of lot.free_count s) 1 ≡ count_of lot.free_count s + 1
add64-one lot t s v in_lot e = omega (
  arith,
  v.counted s,
  v.small_enough,
  count_free_lt s lot.spots (spot_at lot t.level t.spot) (in_block lot t v.has_spots in_lot)
      (taken_share s (spot_of lot t.level t.spot) e),
)

deassigner-taken :
    (lot : Lot) (t : Ticket)
    → ValidLot lot
    → InLot lot t
    → (spot_of lot t.level t.spot).occupied ≡ true
    → deassigner lot t ≡ some (true, freed lot t)
unfolding deassigner
deassigner-taken lot t v (p, q) e = ground (
  arith,
  get_spot lot t.level t.spot v.has_spots p q,
  store?-eq-set lot.spots (spot_at lot t.level t.spot)
      (record { occupied = false; size = (spot_of lot t.level t.spot).size })
      (in_block lot t v.has_spots (p, q)),
  add64-one lot t (spot_of lot t.level t.spot).size v (p, q) e,
)

freed-Valid :
    (lot : Lot) (t : Ticket)
    → ValidLot lot
    → InLot lot t
    → (spot_of lot t.level t.spot).occupied ≡ true
    → ValidLot (freed lot t)
freed-Valid lot t v in_lot e =
    let sp = spot_of lot t.level t.spot in
    with_spot-Valid lot sp.size t false (count_of lot.free_count sp.size + 1) v in_lot refl
      (omega (arith, ap one_if (taken_share sp.size sp e)))

-- On a valid lot `deassigner` returns and leaves a valid lot. A ticket of an occupied spot frees
-- that spot and adds one to the counter of its size. A ticket outside the lot, or of a spot that
-- is free already, is refused and changes nothing.
pub deassigner_lem :
    (lot : Lot) (t : Ticket)
    → ValidLot lot
    → (ok : Bool) × (lot' : Lot) × (deassigner lot t ≡ some (ok, lot'))
      × ValidLot lot'
      × ((ok ≡ true)
            × InLot lot t
            × ((spot_of lot t.level t.spot).occupied ≡ true)
            × (lot' ≡ freed lot t)
          ⊎ (ok ≡ false)
            × (lot' ≡ lot)
            × (InLot lot t → (spot_of lot t.level t.spot).occupied ≡ false))
deassigner_lem lot t v = elim (Bool-cases (leb lot.levels t.level || leb lot.spots_floor t.spot)) [
  | inl out ↦
      (false, lot, deassigner-out lot t out, v, inr (refl, refl, λ in_lot. absurd (ground arith)))
  | inr inside ↦
      let in_lot : InLot lot t = (ground arith, ground arith) in
      elim (Bool-cases (spot_of lot t.level t.spot).occupied) [
        | inl taken ↦ (
          true,
          freed lot t,
          deassigner-taken lot t v in_lot taken,
          freed-Valid lot t v in_lot taken,
          inl (refl, in_lot, taken, refl),
        )
        | inr open_ ↦
            (false, lot, deassigner-free lot t v in_lot open_, v, inr (refl, refl, λ p. open_))
      ]
]

set-undo :
    (spots : List Spot) (k : ℕ) (a b : Spot)
    → k < length spots
    → get_or spots k no_spot ≡ b
    → set (set spots k a) k b ≡ spots
set-undo [] k a b lt e = refl
set-undo (sp ∷ spots) zero a b lt e = ap (λ z. z ∷ spots) (sym e)
set-undo (sp ∷ spots) (suc k) a b lt e = ap (λ z. sp ∷ z) (set-undo spots k a b (omega arith) e)

set_count-undo :
    (c : Counts) (s : Size)
    → count_of c s ≢ 0
    → let less = set_count c s (count_of c s - 1) in set_count less s (count_of less s + 1) ≡ c
set_count-undo c Size.small nz = ap (λ v. record c { smalls = v }) (omega (arith, nz))
set_count-undo c Size.medium nz = ap (λ v. record c { mediums = v }) (omega (arith, nz))
set_count-undo c Size.large nz = ap (λ v. record c { larges = v }) (omega (arith, nz))

parked_spot :
    (lot : Lot) (s : Size) (t : Ticket)
    → ValidLot lot
    → InLot lot t
    → spot_of (parked lot s t) t.level t.spot ≡ record { occupied = true; size = s }
parked_spot lot s t v in_lot =
    get_or-set_self lot.spots (spot_at lot t.level t.spot) (record { occupied = true; size = s })
      no_spot (in_block lot t v.has_spots in_lot)

freed-parked :
    (lot : Lot) (s : Size) (t : Ticket)
    → ValidLot lot
    → FirstFree lot s 0 t
    → count_of lot.free_count s ≢ 0
    → freed (parked lot s t) t ≡ lot
freed-parked lot s t v first nz =
    let in_lot : InLot lot t = (first.level_in, first.spot_in) in
    let size_s : (spot_of (parked lot s t) t.level t.spot).size ≡ s =
      ap (λ (sp : Spot). sp.size) (parked_spot lot s t v in_lot) in
    ap (λ z. with_spot (parked lot s t) z t false (count_of (parked lot s t).free_count z + 1))
      size_s
    ∙ ap₂ (λ spots counts. record lot { spots = spots; free_count = counts })
        (set-undo lot.spots (spot_at lot t.level t.spot) (record { occupied = true; size = s })
          (record { occupied = false; size = s }) (in_block lot t v.has_spots in_lot)
          (free_spot s (spot_of lot t.level t.spot) first.free))
        (set_count-undo lot.free_count s nz)

FirstFit-leave :
    (lot : Lot) (sizes : List Size) (t : Ticket) (lot' : Lot)
    → ValidLot lot
    → ValidLot lot'
    → FirstFit lot sizes (some t) lot'
    → deassigner lot' t ≡ some (true, lot)
FirstFit-leave lot [] t lot' v v' (e, same) = cc
FirstFit-leave lot (s ∷ sizes) t lot' v v' (inl (full, fit)) =
    FirstFit-leave lot sizes t lot' v v' fit
FirstFit-leave lot (s ∷ sizes) t lot' v v' (inr (u, e, first, same)) =
    let same_t : t ≡ u = some_inj e in leave t same_t
  where
    in_lot : InLot lot u
    in_lot = (first.level_in, first.spot_in)

    some_free : count_of lot.free_count s ≢ 0
    some_free z = cc (
      none_of_count_free s lot.spots (spot_at lot u.level u.spot) (sym (v.counted s) ∙ z)
          (in_block lot u v.has_spots in_lot),
      first.free,
    )

    back : deassigner (parked lot s u) u ≡ some (true, lot)
    back =
        deassigner-taken (parked lot s u) u (subst ValidLot same v') in_lot
          (ap (λ (sp : Spot). sp.occupied) (parked_spot lot s u v in_lot))
        ∙ ap (λ z. some (true, z)) (freed-parked lot s u v first some_free)

    leave : (t : Ticket) → t ≡ u → deassigner lot' t ≡ some (true, lot)
    leave t same_t = ap₂ deassigner same same_t ∙ back

-- Leaving with the ticket that parking gave brings back the lot as it was, counters included.
pub deassigner-assigner :
    (lot lot' : Lot) (v : Vehicle) (t : Ticket)
    → ValidLot lot
    → assigner lot v ≡ some (some t, lot')
    → deassigner lot' t ≡ some (true, lot)
deassigner-assigner lot lot' v t ok e =
    let (o, after, run, ok', fit) = assigner-FirstFit lot v ok in
    let same : (o, after) ≡ (some t, lot') = some_inj (sym run ∙ e) in
    FirstFit-leave lot (sizes_from (smallest_fit v)) t lot' ok
      (subst ValidLot (ap (λ p. p.1) same) ok')
      (subst (λ p. FirstFit lot (sizes_from (smallest_fit v)) p.0 p.1) same fit)
