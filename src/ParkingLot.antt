-- ===== src/ParkingLot.antt =====
-- Interview/leetcode/08-parking-lot.c: a lot of several levels of small, medium and large spots.
-- Numbers are size_t. The outer `none` of a result is an access outside `spots`.
pub mod Scan
pub mod Count
pub mod Park
pub mod Assign
pub mod Leave
pub mod Create
pub mod Layout
mod Tests
use systems_drills.Base.{
  ℕ, zero, suc, ◌+◌, ◌-◌, ◌*◌, Bool, true, false, ◌&&◌, ◌||◌, not, Option, none, some, List, [],
  ◌∷◌, ltb, leb, ◌==◌, if◌then◌else◌, get_elem?, store?, ◌>>=◌,
}
use systems_drills.Base.Bits.{add64, sub64, mul64}

pub data Size : Type 0 where
  small medium large : Size

pub data Vehicle : Type 0 where
  motorcycle car truck : Vehicle

pub record Ticket : Type 0 where
  pub level : ℕ
  pub spot : ℕ

pub record Spot : Type 0 where
  pub occupied : Bool
  pub size : Size

-- `free_count`, by its three indices.
pub record Counts : Type 0 where
  pub smalls : ℕ
  pub mediums : ℕ
  pub larges : ℕ

pub record Lot : Type 0 where
  pub spots : List Spot
  pub levels : ℕ
  pub spots_floor : ℕ
  pub free_count : Counts

-- The order of the enumeration.
abbrev pub rank : Size → ℕ
rank Size.small = 0
rank Size.medium = 1
rank Size.large = 2

abbrev pub count_of : Counts → Size → ℕ
count_of c Size.small = c.smalls
count_of c Size.medium = c.mediums
count_of c Size.large = c.larges

abbrev pub set_count : Counts → Size → ℕ → Counts
set_count c Size.small v = record c { smalls = v }
set_count c Size.medium v = record c { mediums = v }
set_count c Size.large v = record c { larges = v }

abbrev pub smallest_fit : Vehicle → Size
smallest_fit Vehicle.motorcycle = Size.small
smallest_fit Vehicle.car = Size.medium
smallest_fit Vehicle.truck = Size.large

-- `spot_at`: the place of a spot in the block. The sum is below levels * spots_floor, which is the
-- length of the block if that product does not wrap; if it does, the block is left before the sum
-- can wrap.
abbrev pub spot_at : Lot → ℕ → ℕ → ℕ
spot_at lot level spot = level * lot.spots_floor + spot

-- The size that `create_lot` gives to spot `j` of a level.
abbrev pub size_of : ℕ → ℕ → ℕ → Size
size_of num_small num_medium j =
    if ltb j num_small
    then Size.small
    else if ltb j (add64 num_small num_medium)
    then Size.medium
    else Size.large

-- The loops of `create_lot`: the spots left on a level, then the levels left.
unfoldable pub lay_level : ℕ → Lot → ℕ → ℕ → ℕ → ℕ → Option Lot
lay_level zero lot num_small num_medium i j = some lot
lay_level (suc left) lot num_small num_medium i j = do
  sp ← get_elem? lot.spots (spot_at lot i j)
  spots ← store? lot.spots (spot_at lot i j) (record sp { size = size_of num_small num_medium j })
  lay_level left (record lot { spots = spots }) num_small num_medium i (j + 1)

unfoldable pub lay_levels : ℕ → Lot → ℕ → ℕ → ℕ → Option Lot
lay_levels zero lot num_small num_medium i = some lot
lay_levels (suc left) lot num_small num_medium i = do
  lot' ← lay_level lot.spots_floor lot num_small num_medium i 0
  lay_levels left lot' num_small num_medium (i + 1)

-- The allocator is a parameter. `some none` is a return of false.
unfoldable pub create_lot : (ℕ → Option (List Spot)) → ℕ → ℕ → ℕ → ℕ → Option (Option Lot)
create_lot calloc levels num_small num_medium num_large =
    let per_floor = add64 (add64 num_small num_medium) num_large in
    if levels == 0 || per_floor == 0 then some none else elim (calloc (mul64 levels per_floor)) [
      | none ↦ some none
      | some spots ↦ do
        lot ←
            lay_levels levels
              (record {
                spots = spots;
                levels = levels;
                spots_floor = per_floor;
                free_count = record {
                  smalls = mul64 levels num_small;
                  mediums = mul64 levels num_medium;
                  larges = mul64 levels num_large;
                };
              })
              num_small num_medium 0
        some (some lot)
    ]

-- !sp->occupied && sp->size == s
abbrev pub is_free : Size → Spot → Bool
is_free s sp = not sp.occupied && rank sp.size == rank s

-- The two inner loops of `assigner`: the spots left on a level, then the levels left.
unfoldable pub scan_level : ℕ → Lot → Size → ℕ → ℕ → Option (Option Ticket)
scan_level zero lot s i j = some none
scan_level (suc left) lot s i j =
    let rest = scan_level left lot s i (j + 1) in
    do
      sp ← get_elem? lot.spots (spot_at lot i j)
      if is_free s sp then some (some (record { level = i; spot = j })) else rest

unfoldable pub scan : ℕ → Lot → Size → ℕ → Option (Option Ticket)
scan zero lot s i = some none
scan (suc left) lot s i =
    let rest = scan left lot s (i + 1) in
    do
      found ← scan_level lot.spots_floor lot s i 0
      elim found [ some ticket ↦ some (some ticket) | none ↦ rest ]

-- What is done with the spot that was found.
unfoldable pub occupy : Lot → Size → Ticket → Option Lot
occupy lot s ticket = do
  let index = spot_at lot ticket.level ticket.spot
  sp ← get_elem? lot.spots index
  spots ← store? lot.spots index (record sp { occupied = true })
  some (record lot {
    spots = spots;
    free_count = set_count lot.free_count s (sub64 (count_of lot.free_count s) 1);
  })

-- for (s = smallest_fit(v); s <= LARGE; s++)
abbrev pub sizes_from : Size → List Size
sizes_from Size.small = Size.small ∷ Size.medium ∷ Size.large ∷ []
sizes_from Size.medium = Size.medium ∷ Size.large ∷ []
sizes_from Size.large = Size.large ∷ []

unfoldable pub assign_sizes : Lot → List Size → Option (Option Ticket × Lot)
assign_sizes lot [] = some (none, lot)
assign_sizes lot (s ∷ more) =
    let rest = assign_sizes lot more in
    if count_of lot.free_count s == 0 then rest else (do
      found ← scan lot.levels lot s 0
      elim found [
        | none ↦ rest
        | some ticket ↦ do lot' ← occupy lot s ticket; some (some ticket, lot')
      ])

-- `some ticket` is a return of true with the ticket filled.
unfoldable pub assigner : Lot → Vehicle → Option (Option Ticket × Lot)
assigner lot v = assign_sizes lot (sizes_from (smallest_fit v))

unfoldable pub deassigner : Lot → Ticket → Option (Bool × Lot)
deassigner lot ticket =
    if leb lot.levels ticket.level || leb lot.spots_floor ticket.spot then some (false, lot) else do
      let index = spot_at lot ticket.level ticket.spot
      sp ← get_elem? lot.spots index
      if not sp.occupied then some (false, lot) else (do
        spots ← store? lot.spots index (record sp { occupied = false })
        some (
          true,
          record lot {
            spots = spots;
            free_count =
                set_count lot.free_count sp.size (add64 (count_of lot.free_count sp.size) 1);
          },
        ))

abbrev pub free_spots : Lot → Size → ℕ
free_spots lot s = count_of lot.free_count s
