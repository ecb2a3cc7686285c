-- ===== src/Rcu.antt =====
-- Interview/mock1_rcu.c: guest address lookup without locks for readers, copy-on-write for the one
-- writer. A table is the list of its regions: it is never changed once it is published.
-- All numbers are uint64_t; `none` is an access outside a table, or fuel at its end.
pub mod Lookup
pub mod Insert
pub mod Add
pub mod Grace
mod Tests
use systems_drills.Base.{
  ℕ, zero, suc, ◌+◌, ◌-◌, ◌/◌, Bool, true, false, ◌&&◌, ◌||◌, Option, none, some, List, [], ◌∷◌,
  ◌++◌, ltb, leb, ◌==◌, if◌then◌else◌, length, get_elem?, take, drop, ◌>>=◌,
}
use systems_drills.Base.Bits.{add64, sub64}
use systems_drills.RegionTable.{uint64_max}

pub record Region : Type 0 where
  pub gpa_start : ℕ
  pub size : ℕ
  pub hva : ℕ

abbrev pub max_regions : ℕ
max_regions = 512

-- The loop of `lookup`: how many regions start at or below the address.
unfoldable pub lookup_loop : ℕ → List Region → ℕ → ℕ → ℕ → Option ℕ
lookup_loop zero t gpa lo hi = none
lookup_loop (suc fuel) t gpa lo hi =
    let mid = lo + (hi - lo) / 2 in
    let upper = lookup_loop fuel t gpa (mid + 1) hi in
    let lower = lookup_loop fuel t gpa lo mid in
    if ltb lo hi
    then (do r ← get_elem? t mid; if leb r.gpa_start gpa then upper else lower)
    else some lo

-- What `lookup` does with that number.
unfoldable pub answer : List Region → ℕ → ℕ → Option (Option ℕ)
answer t lo gpa = if lo == 0 then some none else do
  r ← get_elem? t (lo - 1)
  if leb r.size (sub64 gpa r.gpa_start)
      then some none
      else some (some (add64 r.hva (sub64 gpa r.gpa_start)))

-- The range shrinks in each round, so one round more than the table has regions is enough.
unfoldable pub lookup : List Region → ℕ → Option (Option ℕ)
lookup t gpa = do lo ← lookup_loop (suc (length t)) t gpa 0 (length t); answer t lo gpa

pub data AddResult : Type 0 where
  add_ok add_bad_size add_wraps add_overlap add_full add_nomem : AddResult

-- The insertion point: the first region that starts at or after the new one.
unfoldable pub find_pos : List Region → Region → ℕ
find_pos [] rgn = 0
find_pos (r ∷ rest) rgn = if ltb r.gpa_start rgn.gpa_start then suc (find_pos rest rgn) else 0

-- The two tests against the neighbours of the insertion point.
unfoldable pub before_overlaps : List Region → Region → ℕ → Option Bool
before_overlaps old rgn pos =
    if pos == 0
    then some false
    else do r ← get_elem? old (pos - 1); some (ltb rgn.gpa_start (add64 r.gpa_start r.size))

unfoldable pub after_overlaps : List Region → Region → ℕ → Option Bool
after_overlaps old rgn pos =
    if leb (length old) pos
    then some false
    else do r ← get_elem? old pos; some (ltb r.gpa_start (add64 rgn.gpa_start rgn.size))

-- The two `memcpy` calls round the new region.
abbrev pub copy_with : List Region → Region → ℕ → List Region
copy_with old rgn pos = take pos old ++ (rgn ∷ drop pos old)

-- `region_add` up to the publication: the result, and the new table where one was built. Whether
-- `malloc` serves is a parameter.
unfoldable pub build : Bool → List Region → Region → Option (AddResult × List Region)
build memory old rgn =
    if rgn.size == 0
    then some (AddResult.add_bad_size, old)
    else if ltb (sub64 uint64_max rgn.size) rgn.gpa_start || ltb (sub64 uint64_max rgn.size) rgn.hva
    then some (AddResult.add_wraps, old)
    else if length old == max_regions
    then some (AddResult.add_full, old)
    else (do
      let pos = find_pos old rgn
      before ← before_overlaps old rgn pos
      after ← after_overlaps old rgn pos
      if before || after
          then some (AddResult.add_overlap, old)
          else if memory
          then some (AddResult.add_ok, copy_with old rgn pos)
          else some (AddResult.add_nomem, old))
