-- ===== src/ParkingLot/Assign.antt =====
-- `assigner`: which spot a vehicle gets, by the sizes that it fits.
use systems_drills.Base.{
  ℕ, ◌<◌, ◌≡◌, ◌≢◌, inl, inr, false, Option, none, some, sym, ap, ◌∙◌, subst, arith,
}
use systems_drills.ParkingLot.{
  Size, Vehicle, Ticket, Spot, Lot, is_free, spot_at, sizes_from, smallest_fit, assigner,
}
use systems_drills.ParkingLot.Scan.{FirstFree, HasSpots, index_lt, spot_of}
use systems_drills.ParkingLot.Count.{ValidLot, count_free, none_of_count_free}
use systems_drills.ParkingLot.Park.{FirstFit, parked, rank_refl, free_spot, assigner-FirstFit}

-- Which vehicle fits in a spot of which size.
abbrev pub Fits : Vehicle → Size → Type 0
Fits Vehicle.motorcycle s = Unit
Fits Vehicle.car Size.small = ⊥
Fits Vehicle.car Size.medium = Unit
Fits Vehicle.car Size.large = Unit
Fits Vehicle.truck Size.small = ⊥
Fits Vehicle.truck Size.medium = ⊥
Fits Vehicle.truck Size.large = Unit

abbrev pub Smaller : Size → Size → Type 0
Smaller Size.small Size.small = ⊥
Smaller Size.small Size.medium = Unit
Smaller Size.small Size.large = Unit
Smaller Size.medium Size.small = ⊥
Smaller Size.medium Size.medium = ⊥
Smaller Size.medium Size.large = Unit
Smaller Size.large s = ⊥

abbrev pub free_of : Size → Spot
free_of s = record { occupied = false; size = s }

abbrev pub NoFree : Lot → Size → Type 0
NoFree lot s = (i j : ℕ) → i < lot.levels → j < lot.spots_floor → spot_of lot i j ≢ free_of s

-- The vehicle has taken the first free spot of the smallest size that it fits and that has one,
-- or, when no size that it fits has a free spot, nothing has changed.
abbrev pub Parks : Lot → Vehicle → Option Ticket → Lot → Type 0
Parks lot v (some t) lot' =
    (s : Size) × Fits v s
    × (spot_of lot t.level t.spot ≡ free_of s)
    × FirstFree lot s 0 t
    × (lot' ≡ parked lot s t)
    × ((u : Size) → Fits v u → Smaller u s → NoFree lot u)
Parks lot v none lot' = (lot' ≡ lot) × ((u : Size) → Fits v u → NoFree lot u)

no_free : (lot : Lot) (s : Size) → HasSpots lot → count_free s lot.spots ≡ 0 → NoFree lot s
no_free lot s h z i j p q e = cc (
  none_of_count_free s lot.spots (spot_at lot i j) z
      (omega (arith, h, index_lt lot.levels lot.spots_floor i j p q)),
  ap (λ sp. is_free s sp) e ∙ rank_refl s,
)

takes :
    (lot : Lot) (v : Vehicle) (s : Size) (o : Option Ticket) (lot' : Lot)
    → Fits v s
    → ((u : Size) → Fits v u → Smaller u s → NoFree lot u)
    → (t : Ticket) × (o ≡ some t) × FirstFree lot s 0 t × (lot' ≡ parked lot s t)
    → Parks lot v o lot'
takes lot v s o lot' fits smaller (t, e, first, same) =
    subst (λ o. Parks lot v o lot') (sym e)
      (s, fits, free_spot s (spot_of lot t.level t.spot) first.free, first, same, smaller)

leaves :
    (lot : Lot) (v : Vehicle) (o : Option Ticket) (lot' : Lot)
    → o ≡ none
    → lot' ≡ lot
    → ((u : Size) → Fits v u → NoFree lot u)
    → Parks lot v o lot'
leaves lot v o lot' e same full = subst (λ o. Parks lot v o lot') (sym e) (same, full)

-- Two of the sizes are known to have no free spot, or not to fit.
below_small : (lot : Lot) (v : Vehicle) (u : Size) → Fits v u → Smaller u Size.small → NoFree lot u
below_small lot v Size.small f l = absurd l
below_small lot v Size.medium f l = absurd l
below_small lot v Size.large f l = absurd l

below_medium :
    (lot : Lot) (v : Vehicle)
    → (Fits v Size.small → NoFree lot Size.small)
    → (u : Size) → Fits v u
    → Smaller u Size.medium
    → NoFree lot u
below_medium lot v small Size.small f l = small f
below_medium lot v small Size.medium f l = absurd l
below_medium lot v small Size.large f l = absurd l

below_large :
    (lot : Lot) (v : Vehicle)
    → (Fits v Size.small → NoFree lot Size.small)
    → (Fits v Size.medium → NoFree lot Size.medium)
    → (u : Size) → Fits v u
    → Smaller u Size.large
    → NoFree lot u
below_large lot v small medium Size.small f l = small f
below_large lot v small medium Size.medium f l = medium f
below_large lot v small medium Size.large f l = absurd l

all_full :
    (lot : Lot) (v : Vehicle)
    → (Fits v Size.small → NoFree lot Size.small)
    → (Fits v Size.medium → NoFree lot Size.medium)
    → NoFree lot Size.large
    → (u : Size) → Fits v u
    → NoFree lot u
all_full lot v small medium large Size.small f = small f
all_full lot v small medium large Size.medium f = medium f
all_full lot v small medium large Size.large f = large

FirstFit-Parks :
    (lot : Lot) (v : Vehicle) (o : Option Ticket) (lot' : Lot)
    → HasSpots lot
    → FirstFit lot (sizes_from (smallest_fit v)) o lot'
    → Parks lot v o lot'
FirstFit-Parks lot Vehicle.motorcycle o lot' h fit = motorcycle fit
  where
    full : (s : Size) → count_free s lot.spots ≡ 0 → Fits Vehicle.motorcycle s → NoFree lot s
    full s z f = no_free lot s h z

    motorcycle : FirstFit lot (sizes_from Size.small) o lot' → Parks lot Vehicle.motorcycle o lot'
    motorcycle (inr p) =
        takes lot Vehicle.motorcycle Size.small o lot' tt (below_small lot Vehicle.motorcycle) p
    motorcycle (inl (zs, inr p)) =
        takes lot Vehicle.motorcycle Size.medium o lot' tt
          (below_medium lot Vehicle.motorcycle (full Size.small zs)) p
    motorcycle (inl (zs, inl (zm, inr p))) =
        takes lot Vehicle.motorcycle Size.large o lot' tt
          (below_large lot Vehicle.motorcycle (full Size.small zs) (full Size.medium zm)) p
    motorcycle (inl (zs, inl (zm, inl (zl, (e, same))))) =
        leaves lot Vehicle.motorcycle o lot' e same (
          all_full lot Vehicle.motorcycle (full Size.small zs) (full Size.medium zm)
            (full Size.large zl tt))
FirstFit-Parks lot Vehicle.car o lot' h fit = car fit
  where
    full : (s : Size) → count_free s lot.spots ≡ 0 → Fits Vehicle.car s → NoFree lot s
    full s z f = no_free lot s h z

    car : FirstFit lot (sizes_from Size.medium) o lot' → Parks lot Vehicle.car o lot'
    car (inr p) =
        takes lot Vehicle.car Size.medium o lot' tt (below_medium lot Vehicle.car (λ f. absurd f)) p
    car (inl (zm, inr p)) =
        takes lot Vehicle.car Size.large o lot' tt
          (below_large lot Vehicle.car (λ f. absurd f) (full Size.medium zm)) p
    car (inl (zm, inl (zl, (e, same)))) =
        leaves lot Vehicle.car o lot' e same
          (all_full lot Vehicle.car (λ f. absurd f) (full Size.medium zm) (full Size.large zl tt))
FirstFit-Parks lot Vehicle.truck o lot' h fit = truck fit
  where
    truck : FirstFit lot (sizes_from Size.large) o lot' → Parks lot Vehicle.truck o lot'
    truck (inr p) =
        takes lot Vehicle.truck Size.large o lot' tt
          (below_large lot Vehicle.truck (λ f. absurd f) (λ f. absurd f)) p
    truck (inl (zl, (e, same))) =
        leaves lot Vehicle.truck o lot' e same
          (all_full lot Vehicle.truck (λ f. absurd f) (λ f. absurd f) (no_free lot Size.large h zl))

-- On a valid lot `assigner` returns and leaves a valid lot. A motorcycle fits every size, a car
-- medium and large, a truck large only. A vehicle takes the first free spot, by level and then
-- by place, of the smallest size that it fits and that has a free spot, and the counter of that
-- size goes down by one. If no size that it fits has a free spot, it gets no ticket and nothing
-- changes.
pub assigner_lem :
    (lot : Lot) (v : Vehicle)
    → ValidLot lot
    → (o : Option Ticket) × (lot' : Lot) × (assigner lot v ≡ some (o, lot'))
      × ValidLot lot'
      × Parks lot v o lot'
assigner_lem lot v ok =
    let (o, lot', run, ok', fit) = assigner-FirstFit lot v ok in
    (o, lot', run, ok', FirstFit-Parks lot v o lot' ok.has_spots fit)
