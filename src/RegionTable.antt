-- ===== src/RegionTable.antt =====
-- Interview/mock1.c: a table of guest regions, registered one by one and searched in order.
-- `regions` holds the entries 0 .. registered - 1 of the array in order; the array's cells past
-- them are never read. All numbers are uint64_t.
pub mod Add
pub mod Translate
mod Tests
use systems_drills.Base.{
  ℕ, ◌-◌, Bool, true, false, ◌&&◌, ◌||◌, not, Option, none, some, List, [], ◌∷◌, ◌++◌, ltb, leb,
  ◌==◌, if◌then◌else◌, length,
}
use systems_drills.Base.Bits.{word, add64, sub64}

pub data Code : Type 0 where
  success region_overlap size_zero address_overflow regions_full : Code

pub record Region : Type 0 where
  pub guest_physical_start : ℕ
  pub memsize : ℕ
  pub host_virtual : ℕ

abbrev pub num_regions : ℕ
num_regions = 512

abbrev pub uint64_max : ℕ
uint64_max = word - 1

-- The test in the loop of `region_add`, for one registered region.
unfoldable pub overlaps : Region → Region → Bool
overlaps rgn old =
    let new_end = add64 rgn.guest_physical_start rgn.memsize in
    let old_end = add64 old.guest_physical_start old.memsize in
    not (leb new_end old.guest_physical_start || leb old_end rgn.guest_physical_start)

unfoldable pub any_overlaps : Region → List Region → Bool
any_overlaps rgn [] = false
any_overlaps rgn (old ∷ rest) = overlaps rgn old || any_overlaps rgn rest

-- `tbl` is the list of registered regions; the new list is the table after the call.
unfoldable pub region_add : List Region → Region → Code × List Region
region_add tbl rgn =
    if rgn.memsize == 0
    then (Code.size_zero, tbl)
    else if ltb (sub64 uint64_max rgn.memsize) rgn.guest_physical_start
    then (Code.address_overflow, tbl)
    else if ltb (sub64 uint64_max rgn.memsize) rgn.host_virtual
    then (Code.address_overflow, tbl)
    else if length tbl == num_regions
    then (Code.regions_full, tbl)
    else if any_overlaps rgn tbl
    then (Code.region_overlap, tbl)
    else (Code.success, tbl ++ (rgn ∷ []))

unfoldable pub contains : Region → ℕ → Bool
contains r gpa = leb r.guest_physical_start gpa && ltb (sub64 gpa r.guest_physical_start) r.memsize

-- `some hva` is a return of true with `*hva` written.
unfoldable pub translate : List Region → ℕ → Option ℕ
translate [] gpa = none
translate (r ∷ rest) gpa =
    if contains r gpa
    then some (add64 r.host_virtual (sub64 gpa r.guest_physical_start))
    else translate rest gpa
