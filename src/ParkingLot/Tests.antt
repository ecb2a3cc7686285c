-- ===== src/ParkingLot/Tests.antt =====
-- `main` of the parking lot, call by call, and the theorems at its lot.
use systems_drills.Base.{
  ℕ, ◌*◌, ◌≡◌, ◌⊎◌, refl, Bool, true, false, Option, none, some, List, [], ◌∷◌, arith, replicate,
  store?, get_elem?, ◌>>=◌, ◌==◌, ◌&&◌,
}
use systems_drills.ParkingLot.{
  Size, Vehicle, Ticket, Spot, Lot, free_spots, create_lot, lay_level, lay_levels, assigner,
  assign_sizes, scan, scan_level, occupy, deassigner,
}
use systems_drills.ParkingLot.Scan.{spot_of}
use systems_drills.ParkingLot.Count.{ValidLot, count_free}
use systems_drills.ParkingLot.Create.{blank}
use systems_drills.ParkingLot.Layout.{per_level, create_lot_lem}
use systems_drills.ParkingLot.Park.{InLot}
use systems_drills.ParkingLot.Assign.{Parks, assigner_lem}
use systems_drills.ParkingLot.Leave.{freed, deassigner_lem, deassigner-assigner}

abbrev calloc : ℕ → Option (List Spot)
calloc n = some (replicate n blank)

-- A call of `main`: parking, with the ticket kept by its number in the list of tickets, leaving
-- with such a ticket, and leaving with a ticket that was never given. The asserts between the
-- calls: the free spots of a size, and two tickets, by their numbers, for the same spot.
data Call : Type 0 where
  park : Vehicle → Call
  leave : ℕ → Call
  leave_bad : Ticket → Call
  counts : Size → ℕ → Call
  same_spot : ℕ → ℕ → Call

-- What the calls return and whether the asserted equations hold, and the lot at the end.
unfoldable run_calls : Lot → List Ticket → List Call → Option (List Bool × Lot)
run_calls lot tickets [] = some ([], lot)
run_calls lot tickets (park v ∷ calls) =
    let next = λ (t : Ticket) (l : Lot). run_calls l (t ∷ tickets) calls in
    let full = λ (l : Lot). run_calls l tickets calls in
    do
      (o, lot') ← assigner lot v
      elim o [
        | some t ↦ do (oks, l) ← next t lot'; some (true ∷ oks, l)
        | none ↦ do (oks, l) ← full lot'; some (false ∷ oks, l)
      ]
run_calls lot tickets (leave n ∷ calls) =
    let next = λ (l : Lot). run_calls l tickets calls in
    do
      t ← get_elem? tickets n
      (ok, lot') ← deassigner lot t
      (oks, l) ← next lot'
      some (ok ∷ oks, l)
run_calls lot tickets (leave_bad t ∷ calls) =
    let next = λ (l : Lot). run_calls l tickets calls in
    do (ok, lot') ← deassigner lot t; (oks, l) ← next lot'; some (ok ∷ oks, l)
run_calls lot tickets (counts s n ∷ calls) =
    let next = run_calls lot tickets calls in
    do (oks, l) ← next; some ((free_spots lot s == n) ∷ oks, l)
run_calls lot tickets (same_spot n m ∷ calls) =
    let next = run_calls lot tickets calls in
    do
      t ← get_elem? tickets n
      u ← get_elem? tickets m
      (oks, l) ← next
      some ((t.level == u.level && t.spot == u.spot) ∷ oks, l)

-- 2 levels, each 2 small, 3 medium, 1 large.
abbrev main_lot : Option (Option Lot)
main_lot = create_lot calloc 2 2 3 1

-- Three trucks, a truck that leaves twice, five motorcycles, six cars, and an invalid ticket.
abbrev main_calls : List Call
main_calls =
    Call.counts Size.small 4
    ∷ Call.counts Size.medium 6
    ∷ Call.counts Size.large 2
    ∷ Call.park Vehicle.truck
    ∷ Call.park Vehicle.truck
    ∷ Call.park Vehicle.truck
    ∷ Call.counts Size.large 0
    ∷ Call.leave 1
    ∷ Call.leave 1
    ∷ Call.park Vehicle.truck
    ∷ Call.same_spot 0 2
    ∷ Call.park Vehicle.motorcycle
    ∷ Call.park Vehicle.motorcycle
    ∷ Call.park Vehicle.motorcycle
    ∷ Call.park Vehicle.motorcycle
    ∷ Call.counts Size.small 0
    ∷ Call.park Vehicle.motorcycle
    ∷ Call.counts Size.medium 5
    ∷ Call.park Vehicle.car
    ∷ Call.park Vehicle.car
    ∷ Call.park Vehicle.car
    ∷ Call.park Vehicle.car
    ∷ Call.park Vehicle.car
    ∷ Call.park Vehicle.car
    ∷ Call.leave_bad (record { level = 7; spot = 0 })
    ∷ []

unfoldable main_run : Option (List Bool)
main_run = do made ← main_lot; lot ← made; (oks, l) ← run_calls lot [] main_calls; some oks

main_replies :
    main_run
    ≡ some (
        true ∷ true ∷ true ∷ true ∷ true ∷ false ∷ true ∷ true ∷ false ∷ true ∷ true ∷ true ∷ true
        ∷ true ∷ true ∷ true ∷ true ∷ true ∷ true ∷ true ∷ true ∷ true ∷ true ∷ false ∷ false ∷ [])
unfolding main_run run_calls create_lot lay_levels lay_level store? assigner assign_sizes scan
    scan_level occupy deassigner
main_replies = refl

create_lot_lem_example :
    (lot : Lot) × (create_lot calloc 2 2 3 1 ≡ some (some lot))
    × ValidLot lot
    × ((s : Size) → free_spots lot s ≡ 2 * per_level 2 3 1 s)
create_lot_lem_example =
    create_lot_lem calloc 2 2 3 1 (omega arith) (omega arith) (omega arith) refl

abbrev spot : Bool → Size → Spot
spot taken size = record { occupied = taken; size = size }

-- One level: a small spot that is taken, and two medium ones.
abbrev small_lot : Lot
small_lot = record {
  spots = spot true Size.small ∷ spot false Size.medium ∷ spot false Size.medium ∷ [];
  levels = 1;
  spots_floor = 3;
  free_count = record { smalls = 0; mediums = 2; larges = 0 };
}

small_lot-ValidLot : ValidLot small_lot
small_lot-ValidLot = record { has_spots = refl; small_enough = omega arith; counted = each }
  where
    each : (s : Size) → free_spots small_lot s ≡ count_free s small_lot.spots
    each Size.small = refl
    each Size.medium = refl
    each Size.large = refl

assigner_lem_example :
    (o : Option Ticket) × (lot' : Lot) × (assigner small_lot Vehicle.motorcycle ≡ some (o, lot'))
    × ValidLot lot'
    × Parks small_lot Vehicle.motorcycle o lot'
assigner_lem_example = assigner_lem small_lot Vehicle.motorcycle small_lot-ValidLot

abbrev first_spot : Ticket
first_spot = record { level = 0; spot = 0 }

deassigner_lem_example :
    (ok : Bool) × (lot' : Lot) × (deassigner small_lot first_spot ≡ some (ok, lot'))
    × ValidLot lot'
    × ((ok ≡ true)
          × InLot small_lot first_spot
          × ((spot_of small_lot 0 0).occupied ≡ true)
          × (lot' ≡ freed small_lot first_spot)
        ⊎ (ok ≡ false)
          × (lot' ≡ small_lot)
          × (InLot small_lot first_spot → (spot_of small_lot 0 0).occupied ≡ false))
deassigner_lem_example = deassigner_lem small_lot first_spot small_lot-ValidLot

abbrev after_car : Lot
after_car = record {
  spots = spot true Size.small ∷ spot true Size.medium ∷ spot false Size.medium ∷ [];
  levels = 1;
  spots_floor = 3;
  free_count = record { smalls = 0; mediums = 1; larges = 0 };
}

car_parks : assigner small_lot Vehicle.car ≡ some (some (record { level = 0; spot = 1 }), after_car)
unfolding assigner assign_sizes scan scan_level occupy store?
car_parks = refl

deassigner-assigner_example :
    deassigner after_car (record { level = 0; spot = 1 }) ≡ some (true, small_lot)
deassigner-assigner_example =
    deassigner-assigner small_lot after_car Vehicle.car (record { level = 0; spot = 1 })
      small_lot-ValidLot car_parks
