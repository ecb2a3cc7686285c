-- ===== src/RegionTable/Tests.antt =====
-- `main` of mock1.c: its calls and the results that its asserts expect; the theorems at its regions.
use systems_drills.Base.{
  ℕ, ◌+◌, ◌-◌, ◌≡◌, ◌<◌, ◌≢◌, ◌↔◌, ◌⊎◌, refl, none, some, List, [], ◌∷◌, ◌++◌, arith, get_elem?,
}
use systems_drills.Base.Bits.{word}
use systems_drills.RegionTable.{
  Code, Region, overlaps, any_overlaps, region_add, contains, translate, uint64_max,
}
use systems_drills.RegionTable.Add.{
  IsValid, IsWords, Acceptable, All, region_add_iff, region_add-IsValid,
}
use systems_drills.RegionTable.Translate.{Inside, translate_lem, translate-region_add}

abbrev region : ℕ → ℕ → ℕ → Region
region start size hva = record { guest_physical_start = start; memsize = size; host_virtual = hva }

abbrev a : Region
a = region 0x1000 0x1000 0x7f0000000000

-- The codes of the registrations of `main`, in order, with the final table.
unfoldable register_all : List Region → List Region → List Code × List Region
register_all tbl [] = ([], tbl)
register_all tbl (r ∷ rs) =
    let (c, tbl') = region_add tbl r in let (cs, last) = register_all tbl' rs in (c ∷ cs, last)

abbrev calls : List Region
calls =
    a
    ∷ region 0x1800 0x1000 0x7f0000100000
    ∷ region 0x0000 0x1800 0x7f0000100000
    ∷ region 0x0000 0x4000 0x7f0000100000
    ∷ region 0x3000 0x1000 0x7f0000100000
    ∷ region 0x2000 0x1000 0x7f0000200000
    ∷ region 0x9000 0 0x7f0000300000
    ∷ region (uint64_max - 0xfff) 0x1000 0x7f0000300000
    ∷ []

main_codes :
    (register_all [] calls).0
    ≡ Code.success ∷ Code.region_overlap ∷ Code.region_overlap ∷ Code.region_overlap ∷ Code.success
      ∷ Code.success ∷ Code.size_zero ∷ Code.address_overflow ∷ []
unfolding register_all region_add any_overlaps overlaps
main_codes = refl

main_translations :
    (translate (a ∷ []) 0x1000 ≡ some 0x7f0000000000)
    × (translate (a ∷ []) 0x1fff ≡ some 0x7f0000000fff)
    × (translate (a ∷ []) 0x2000 ≡ none)
    × (translate (a ∷ []) 0x0fff ≡ none)
    × (translate (register_all [] calls).1 0x2000 ≡ some 0x7f0000200000)
unfolding register_all region_add any_overlaps overlaps translate contains
main_translations = (refl, refl, refl, refl, refl)

one_region : IsValid (a ∷ [])
one_region = omega arith

abbrev next : Region
next = region 0x2000 0x1000 0x7f0000200000

next-IsWords : IsWords next
next-IsWords = omega arith

added : (region_add (a ∷ []) next).0 ≡ Code.success
unfolding region_add any_overlaps overlaps
added = refl

region_add_iff_example : ((region_add (a ∷ []) next).0 ≡ Code.success) ↔ Acceptable (a ∷ []) next
region_add_iff_example = region_add_iff (a ∷ []) next one_region next-IsWords

region_add-IsValid_example :
    IsValid (region_add (a ∷ []) next).1
    × (((region_add (a ∷ []) next).0 ≡ Code.success)
          × ((region_add (a ∷ []) next).1 ≡ (a ∷ []) ++ (next ∷ []))
        ⊎ ((region_add (a ∷ []) next).0 ≢ Code.success) × ((region_add (a ∷ []) next).1 ≡ a ∷ []))
region_add-IsValid_example = region_add-IsValid (a ∷ []) next one_region next-IsWords

translate_lem_example :
    ((i : ℕ) (r : Region)
      → get_elem? (a ∷ []) i ≡ some r
      → Inside 0x1fff r
      → (translate (a ∷ []) 0x1fff ≡ some (r.host_virtual + (0x1fff - r.guest_physical_start)))
        × (r.host_virtual + (0x1fff - r.guest_physical_start) < word))
    × (All (λ r. ¬ Inside 0x1fff r) (a ∷ []) → translate (a ∷ []) 0x1fff ≡ none)
translate_lem_example = translate_lem (a ∷ []) 0x1fff one_region (omega arith)

translate-region_add_example :
    (Inside 0x2004 next → translate (region_add (a ∷ []) next).1 0x2004 ≡ some 0x7f0000200004)
    × (¬ Inside 0x2004 next
        → translate (region_add (a ∷ []) next).1 0x2004 ≡ translate (a ∷ []) 0x2004)
translate-region_add_example =
    translate-region_add (a ∷ []) next 0x2004 one_region next-IsWords (omega arith) added
