-- ===== src/Rcu/Tests.antt =====
-- Runs of mock1_rcu.c's parts, and the theorems at concrete tables and schedules.
use systems_drills.Base.{
  ℕ, ◌+◌, ◌*◌, ◌<◌, ◌≡◌, ◌≢◌, ◌⊎◌, refl, true, none, some, List, map, [], ◌∷◌, arith,
}
use systems_drills.RegionTable.{translate}
use systems_drills.Rcu.{
  Region, AddResult, lookup_loop, answer, lookup, find_pos, before_overlaps, after_overlaps, build,
}
use systems_drills.Rcu.Lookup.{IsTable, as_region, lookup-eq-translate}
use systems_drills.Rcu.Add.{Acceptable, Extends, build_lem}
use systems_drills.Rcu.Grace.{System, Turn, max_readers, read, write, run_turns, start}
use systems_drills.Rcu.Grace.Invariant.{IsLive}
use systems_drills.Rcu.Grace.Safety.{AllTurns, held, run_turns-IsLive}

abbrev chunk : ℕ
chunk = 0x100000

abbrev base_hva : ℕ
base_hva = 0x7f0000000000

-- The region number `i` of `main`.
abbrev main_region : ℕ → Region
main_region i = record { gpa_start = i * chunk; size = chunk; hva = base_hva + i * chunk }

abbrev two : List Region
two = main_region 0 ∷ main_region 2 ∷ []

two-IsTable : IsTable two
two-IsTable = (
  omega arith,
  record { some_size = omega arith; guest = omega arith; host = omega arith },
  (omega arith, record { some_size = omega arith; guest = omega arith; host = omega arith }, tt),
)

lookups :
    (lookup two 0x1234 ≡ some (some 0x7f0000001234))
    × (lookup two 0x100000 ≡ some none)
    × (lookup two 0x2fffff ≡ some (some 0x7f00002fffff))
    × (lookup two 0x300000 ≡ some none)
unfolding lookup lookup_loop answer
lookups = (refl, refl, refl, refl)

lookup-eq-translate_example : lookup two 0x200000 ≡ some (translate (map as_region two) 0x200000)
lookup-eq-translate_example = lookup-eq-translate two 0x200000 two-IsTable (omega arith)

-- The two calls of `main` before the threads start, and one in the middle of a table.
adds :
    (build true [] (main_region 0) ≡ some (AddResult.add_ok, main_region 0 ∷ []))
    × (build true
          (main_region 0 ∷ [])
          (record { gpa_start = 0x80000; size = chunk; hva = base_hva + 0x80000 })
        ≡ some (AddResult.add_overlap, main_region 0 ∷ []))
    × (build true two (main_region 1)
        ≡ some (AddResult.add_ok, main_region 0 ∷ main_region 1 ∷ main_region 2 ∷ []))
unfolding build find_pos before_overlaps after_overlaps
adds = (refl, refl, refl)

build_lem_example :
    (res : AddResult) × (new : List Region) × (build true two (main_region 1) ≡ some (res, new))
    × ((res ≡ AddResult.add_ok)
          × Acceptable true two (main_region 1)
          × Extends two new (main_region 1)
        ⊎ (res ≢ AddResult.add_ok) × (¬ Acceptable true two (main_region 1)) × (new ≡ two))
build_lem_example =
    build_lem true two (main_region 1) two-IsTable (omega arith)
      (omega arith, omega arith, omega arith)

-- A reader is inside the empty table while the writer publishes; the writer spins on it, another
-- reader comes and goes, the first leaves, and the old table is freed.
abbrev schedule : List Turn
schedule =
    read 0 0x10
    ∷ read 0 0x10
    ∷ write true (main_region 0)
    ∷ write true (main_region 0)
    ∷ write true (main_region 0)
    ∷ write true (main_region 0)
    ∷ read 1 0x10
    ∷ read 1 0x10
    ∷ read 0 0x10
    ∷ read 0 0x10
    ∷ write true (main_region 0)
    ∷ []

schedule-AllTurns : AllTurns schedule
schedule-AllTurns = omega arith

run_turns-IsLive_example :
    (s : System) × (run_turns start schedule ≡ some s)
    × IsLive s.heap s.current
    × ((id t : ℕ) → id < max_readers → held (s.readers id).at ≡ some t → IsLive s.heap t)
run_turns-IsLive_example = run_turns-IsLive schedule schedule-AllTurns
