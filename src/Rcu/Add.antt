-- ===== src/Rcu/Add.antt =====
-- `region_add`: the table that is built, and when.
use systems_drills.Base.{
  ==_ne, ==_iff, ℕ, ◌+◌, ◌≤◌, ◌<◌, ◌≡◌, ◌≢◌, ◌↔◌, ◌⊎◌, refl, ◌∙◌, ap, inl, inr, Bool, true, false,
  ◌||◌, some, List, arith, ltb, ◌==◌, if◌then◌else◌, length, Bool-cases, ℕ_discrete,
}
use systems_drills.Base.Bits.{word, sub64}
use systems_drills.RegionTable.{uint64_max}
use systems_drills.Rcu.{Region, AddResult, max_regions, build, lookup}
use systems_drills.Rcu.Lookup.{Fits, IsTable, lookup-eq-translate}
use systems_drills.Rcu.Insert.{
  AllDisjoint, insert, copy_with-find_pos, before_end, after_inside, before_overlaps_lem,
  after_overlaps_lem, neighbours_iff, insert-Above, length-insert, with_region, translate-insert,
}

-- What a region must satisfy for `region_add` to publish a table with it.
pub record Acceptable (memory : Bool) (old : List Region) (rgn : Region) : Type 0 where
  pub fits : Fits rgn
  pub room : length old < max_regions
  pub apart : AllDisjoint rgn old
  pub served : memory ≡ true

-- The new table: sorted and disjoint, one region longer, and every other address as before.
pub record Extends (old new : List Region) (rgn : Region) : Type 0 where
  pub table : IsTable new
  pub longer : length new ≡ length old + 1
  pub finds : (gpa : ℕ) → gpa < word → lookup new gpa ≡ some (with_region rgn old gpa)

abbrev pub IsRegion : Region → Type 0
IsRegion rgn = (rgn.gpa_start < word) × (rgn.size < word) × (rgn.hva < word)

insert-Extends :
    (t : List Region) (rgn : Region)
    → IsTable t
    → Fits rgn
    → AllDisjoint rgn t
    → Extends t (insert rgn t) rgn
insert-Extends t rgn a f d =
    let table = insert-Above 0 t rgn f a (omega arith) d in
    record {
      table = table;
      longer = length-insert rgn t;
      finds = λ gpa h.
          lookup-eq-translate (insert rgn t) gpa table h
          ∙ ap some (translate-insert 0 t rgn gpa f a h d);
    }

Fits-iff :
    (rgn : Region)
    → IsRegion rgn
    → (rgn.size ≢ 0)
        × (ltb (sub64 uint64_max rgn.size) rgn.gpa_start || ltb (sub64 uint64_max rgn.size) rgn.hva
            ≡ false)
      ↔ Fits rgn
Fits-iff rgn (a, b, c) = (
  λ (nz, e). record { some_size = omega (arith, nz); guest = ground arith; host = ground arith },
  λ f. (omega (arith, f.some_size), ground (arith, f.some_size, f.guest, f.host)),
)

-- The two tests of `region_add` on a sorted table, as one.
abbrev overlaps_any : List Region → Region → Bool
overlaps_any old rgn = ltb rgn.gpa_start (before_end 0 old rgn) || after_inside old rgn

build-zero :
    (memory : Bool) (old : List Region) (rgn : Region)
    → rgn.size ≡ 0
    → build memory old rgn ≡ some (AddResult.add_bad_size, old)
unfolding build
build-zero memory old rgn e = rw e

build-wraps :
    (memory : Bool) (old : List Region) (rgn : Region)
    → rgn.size ≢ 0
    → ltb (sub64 uint64_max rgn.size) rgn.gpa_start || ltb (sub64 uint64_max rgn.size) rgn.hva
      ≡ true
    → build memory old rgn ≡ some (AddResult.add_wraps, old)
unfolding build
build-wraps memory old rgn nz e = rw (==_ne rgn.size 0 nz, e)

build-rest :
    (memory : Bool) (old : List Region) (rgn : Region)
    → IsTable old
    → Fits rgn
    → rgn.size ≢ 0
    → ltb (sub64 uint64_max rgn.size) rgn.gpa_start || ltb (sub64 uint64_max rgn.size) rgn.hva
      ≡ false
    → build memory old rgn ≡ (
        if length old == max_regions
        then some (AddResult.add_full, old)
        else if overlaps_any old rgn
        then some (AddResult.add_overlap, old)
        else if memory
        then some (AddResult.add_ok, insert rgn old)
        else some (AddResult.add_nomem, old))
unfolding build
build-rest memory old rgn a f nz e = rw (
  ==_ne rgn.size 0 nz,
  e,
  before_overlaps_lem old rgn a,
  after_overlaps_lem old rgn f,
  copy_with-find_pos old rgn,
)

abbrev Outcome : Bool → List Region → Region → AddResult → List Region → Type 0
Outcome memory old rgn res new =
    (res ≡ AddResult.add_ok) × Acceptable memory old rgn × Extends old new rgn
    ⊎ (res ≢ AddResult.add_ok) × (¬ Acceptable memory old rgn) × (new ≡ old)

Built : Bool → List Region → Region → Type 0
Built memory old rgn =
    (res : AddResult) × (new : List Region) × (build memory old rgn ≡ some (res, new))
    × Outcome memory old rgn res new

refused :
    (memory : Bool) (old : List Region) (rgn : Region) (res : AddResult)
    → build memory old rgn ≡ some (res, old)
    → res ≢ AddResult.add_ok
    → ¬ Acceptable memory old rgn
    → Built memory old rgn
unfolding Built
refused memory old rgn res e ne bad = (res, old, e, inr (ne, bad, refl))

build_room :
    (memory : Bool) (old : List Region) (rgn : Region)
    → IsTable old
    → length old ≤ max_regions
    → Fits rgn
    → rgn.size ≢ 0
    → ltb (sub64 uint64_max rgn.size) rgn.gpa_start || ltb (sub64 uint64_max rgn.size) rgn.hva
      ≡ false
    → Built memory old rgn
unfolding Built
build_room memory old rgn a le f nz e =
    let run = build-rest memory old rgn a f nz e in
    let both = neighbours_iff 0 old rgn f a in
    elim (Bool-cases (length old == max_regions)) [
      | inl full ↦
          refused memory old rgn AddResult.add_full (run ∙ rw full) (λ q. cc)
            (λ ok. omega (arith, ok.room, (==_iff (length old) max_regions).0 full))
      | inr room ↦ elim (Bool-cases (overlaps_any old rgn)) [
        | inl hit ↦
            refused memory old rgn AddResult.add_overlap (run ∙ rw (room, hit)) (λ q. cc)
              (λ ok. cc (hit, both.1 (omega arith, ok.apart)))
        | inr clear ↦ elim (Bool-cases memory) [
          | inr none_left ↦
              refused memory old rgn AddResult.add_nomem (run ∙ rw (room, clear, none_left))
                (λ q. cc) (λ ok. cc (none_left, ok.served))
          | inl served ↦ (
            AddResult.add_ok,
            insert rgn old,
            run ∙ rw (room, clear, served),
            inl (
              refl,
              record {
                fits = f;
                room = ground (arith, (==_iff (length old) max_regions).1);
                apart = (both.0 clear).1;
                served = served;
              },
              insert-Extends old rgn a f (both.0 clear).1,
            ),
          )
        ]
      ]
    ]

-- On a sorted table `region_add` builds exactly one of two things. If the region is not empty, wraps
-- in neither address space, is disjoint from every region, and there is space and memory, it reports
-- success, and in the new table the region's addresses are found in it and all others as before. In
-- every other case it reports an error and builds no table.
pub build_lem :
    (memory : Bool) (old : List Region) (rgn : Region)
    → IsTable old
    → length old ≤ max_regions
    → IsRegion rgn
    → (res : AddResult) × (new : List Region) × (build memory old rgn ≡ some (res, new))
      × ((res ≡ AddResult.add_ok) × Acceptable memory old rgn × Extends old new rgn
          ⊎ (res ≢ AddResult.add_ok) × (¬ Acceptable memory old rgn) × (new ≡ old))
unfolding Built
build_lem memory old rgn a le words = elim (ℕ_discrete rgn.size 0) [
  | yes z ↦
      refused memory old rgn AddResult.add_bad_size (build-zero memory old rgn z) (λ q. cc)
        (λ ok. omega (arith, z, ok.fits.some_size))
  | no nz ↦
      elim (Bool-cases (
        ltb (sub64 uint64_max rgn.size) rgn.gpa_start || ltb (sub64 uint64_max rgn.size) rgn.hva)) [
          | inl wraps ↦
              refused memory old rgn AddResult.add_wraps (build-wraps memory old rgn nz wraps)
                (λ q. cc) (λ ok. cc (wraps, ((Fits-iff rgn words).1 ok.fits).1))
          | inr fine ↦ build_room memory old rgn a le ((Fits-iff rgn words).0 (nz, fine)) nz fine
        ]
]
