-- ===== src/Rcu/Lookup.antt =====
-- `lookup` in a sorted table, and the search of Interview/mock1.c through the same regions.
use systems_drills.Base.{
  ℕ, zero, suc, ◌+◌, ◌-◌, ◌/◌, ◌≤◌, ◌<◌, ◌≡◌, refl, ◌∙◌, ap, sym, Option, none, some, List, [], ◌∷◌,
  map, arith, leb, if◌then◌else◌, length, get_or, get_elem?-eq-get_or, dec_lt, dec_le,
}
use systems_drills.Base.Bits.{word, add64, sub64}
use systems_drills.RegionTable
use systems_drills.RegionTable.{contains, translate}
use systems_drills.Rcu.{Region, lookup_loop, answer, lookup}

-- A region wraps in neither address space, and is not empty.
pub record Fits (r : Region) : Type 0 where
  pub some_size : 0 < r.size
  pub guest : r.gpa_start + r.size < word
  pub host : r.hva + r.size < word

-- Ascending from an address on, and disjoint.
abbrev pub Above : ℕ → List Region → Type 0
Above lo [] = Unit
Above lo (r ∷ rest) = (lo ≤ r.gpa_start) × Fits r × Above (r.gpa_start + r.size) rest

abbrev pub IsTable : List Region → Type 0
IsTable t = Above 0 t

abbrev pub no_region : Region
no_region = record { gpa_start = 0; size = 0; hva = 0 }

abbrev start : List Region → ℕ → ℕ
start t i = (get_or t i no_region).gpa_start

-- The number that the loop is after.
abbrev prefix : List Region → ℕ → ℕ
prefix [] gpa = 0
prefix (r ∷ rest) gpa = if leb r.gpa_start gpa then suc (prefix rest gpa) else 0

prefix_le : (t : List Region) (gpa : ℕ) → prefix t gpa ≤ length t
prefix_le [] gpa = omega arith
prefix_le (r ∷ t) gpa = ground (arith, prefix_le t gpa)

start_below : (t : List Region) (gpa i : ℕ) → i < prefix t gpa → start t i ≤ gpa
start_below [] gpa i lt = absurd (omega arith)
start_below (r ∷ t) gpa zero lt = ground arith
start_below (r ∷ t) gpa (suc i) lt = ground (arith, start_below t gpa i)

Above-all : (lo : ℕ) (t : List Region) (i : ℕ) → Above lo t → i < length t → lo ≤ start t i
Above-all lo [] i a lt = absurd (omega arith)
Above-all lo (r ∷ t) zero a lt = a.0
Above-all lo (r ∷ t) (suc i) a lt =
    omega (arith, a.0, Above-all (r.gpa_start + r.size) t i a.2 (omega arith))

start-Above :
    (lo : ℕ) (t : List Region) (gpa i : ℕ)
    → Above lo t
    → prefix t gpa ≤ i
    → i < length t
    → gpa < start t i
start-Above lo [] gpa i a le lt = absurd (omega arith)
start-Above lo (r ∷ t) gpa zero a le lt = ground arith
start-Above lo (r ∷ t) gpa (suc i) a le lt = elim (dec_le r.gpa_start gpa) [
  | yes p ↦ start-Above (r.gpa_start + r.size) t gpa i a.2 (ground arith) (omega arith)
  | no p ↦ omega (arith, p, a.1.some_size, Above-all (r.gpa_start + r.size) t i a.2 (omega arith))
]

module _ (t : List Region) (gpa : ℕ) (a : IsTable t) where
  lookup_loop_lem :
      (fuel lo hi : ℕ)
      → lo ≤ prefix t gpa
      → prefix t gpa ≤ hi
      → hi ≤ length t
      → hi - lo < fuel
      → lookup_loop fuel t gpa lo hi ≡ some (prefix t gpa)
  unfolding lookup_loop
  lookup_loop_lem zero lo hi p q r f = absurd (omega arith)
  lookup_loop_lem (suc fuel) lo hi p q r f = elim (dec_lt lo hi) [
    | no done ↦ ground arith
    | yes more ↦
        let mid = lo + (hi - lo) / 2 in
        let e = get_elem?-eq-get_or t mid no_region (omega arith) in
        elim (dec_lt mid (prefix t gpa)) [
          | yes below ↦ ground (
            arith,
            e,
            start_below t gpa mid below,
            lookup_loop_lem fuel (mid + 1) hi (omega arith) q r (omega arith),
          )
          | no above ↦ ground (
            arith,
            e,
            start-Above 0 t gpa mid a (omega (arith, above)) (omega arith),
            lookup_loop_lem fuel lo mid p (omega (arith, above)) (omega arith) (omega arith),
          )
        ]
  ]

-- The same region in the other program.
abbrev pub as_region : Region → RegionTable.Region
as_region r = record { guest_physical_start = r.gpa_start; memsize = r.size; host_virtual = r.hva }

miss_below :
    (lo : ℕ) (t : List Region) (gpa : ℕ)
    → Above lo t
    → gpa < lo
    → translate (map as_region t) gpa ≡ none
unfolding translate contains
miss_below lo [] gpa a lt = refl
miss_below lo (r ∷ t) gpa a lt =
    ground (arith, a.0, miss_below (r.gpa_start + r.size) t gpa a.2 (omega (arith, a.0)))

-- What the region says of an address that does not lie below it.
abbrev from_region : Region → ℕ → Option ℕ
from_region r gpa =
    if leb r.size (sub64 gpa r.gpa_start) then none else some (add64 r.hva (sub64 gpa r.gpa_start))

answer-suc :
    (t : List Region) (k gpa : ℕ)
    → k < length t
    → answer t (suc k) gpa ≡ some (from_region (get_or t k no_region) gpa)
unfolding answer
answer-suc t k gpa lt = ground (arith, get_elem?-eq-get_or t k no_region lt)

answer-zero : (t : List Region) (gpa : ℕ) → answer t 0 gpa ≡ some none
unfolding answer
answer-zero t gpa = refl

first-Above :
    (lo : ℕ) (t : List Region) (gpa : ℕ)
    → Above lo t
    → prefix t gpa ≡ 0
    → translate (map as_region t) gpa ≡ none
unfolding translate contains
first-Above lo [] gpa a e = refl
first-Above lo (r ∷ t) gpa a e =
    ground (arith, miss_below (r.gpa_start + r.size) t gpa a.2 (ground (arith, a.1.some_size)))

prefix_head : (lo : ℕ) (t : List Region) (gpa k : ℕ) → Above lo t → prefix t gpa ≡ suc k → lo ≤ gpa
prefix_head lo [] gpa k a e = absurd (omega arith)
prefix_head lo (r ∷ t) gpa k a e = ground (arith, a.0)

translate-prefix :
    (lo : ℕ) (t : List Region) (gpa k : ℕ)
    → Above lo t
    → gpa < word
    → prefix t gpa ≡ suc k
    → translate (map as_region t) gpa ≡ from_region (get_or t k no_region) gpa
unfolding translate contains
translate-prefix lo [] gpa k a h e = absurd (omega arith)
translate-prefix lo (r ∷ t) gpa zero a h e =
    ground (arith, first-Above (r.gpa_start + r.size) t gpa a.2 (ground arith))
translate-prefix lo (r ∷ t) gpa (suc k) a h e =
    let rest : prefix t gpa ≡ suc k = ground arith in
    let past = prefix_head (r.gpa_start + r.size) t gpa k a.2 rest in
    ground (arith, past, translate-prefix (r.gpa_start + r.size) t gpa k a.2 h rest)

-- In a sorted table of disjoint regions the binary search returns, reads only entries of the table,
-- and finds for every address what the search of Interview/mock1.c finds by trying all regions.
pub lookup-eq-translate :
    (t : List Region) (gpa : ℕ)
    → IsTable t
    → gpa < word
    → lookup t gpa ≡ some (translate (map as_region t) gpa)
unfolding lookup
lookup-eq-translate t gpa a h =
    rw
      (lookup_loop_lem t gpa a (suc (length t)) 0 (length t) (omega arith) (prefix_le t gpa)
        (omega arith) (omega arith))
      (go (prefix t gpa) refl)
  where
    go : (k : ℕ) → prefix t gpa ≡ k → answer t k gpa ≡ some (translate (map as_region t) gpa)
    go zero e = answer-zero t gpa ∙ ap some (sym (first-Above 0 t gpa a e))
    go (suc k) e =
        answer-suc t k gpa (omega (arith, prefix_le t gpa, e))
        ∙ ap some (sym (translate-prefix 0 t gpa k a h e))
