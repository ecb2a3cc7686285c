-- ===== src/RegionTable/Translate.antt =====
-- What `translate` finds in a valid table, and how registrations change it.
use systems_drills.Base.{
  ℕ, ◌+◌, ◌-◌, ◌≤◌, ◌<◌, ◌≡◌, ◌↔◌, refl, true, none, some, List, [], ◌∷◌, ◌++◌, arith, get_elem?,
  zero, suc, ◌∙◌, sym, subst, some_inj, dec_le, dec_lt, length,
}
use systems_drills.Base.Bits.{word}
use systems_drills.RegionTable.{Code, Region, contains, region_add, translate}
use systems_drills.RegionTable.Add.{
  Fits, IsWords, Disjoint, All, Separate, IsValid, region_add-stores, region_add-IsValid,
}

-- The guest address lies in the region.
abbrev pub Inside : ℕ → Region → Type 0
Inside gpa r = (r.guest_physical_start ≤ gpa) × (gpa < r.guest_physical_start + r.memsize)

inside_dec : (gpa : ℕ) (r : Region) → Dec (Inside gpa r)
inside_dec gpa r = elim (dec_le r.guest_physical_start gpa) [
  | no low ↦ no (λ i. low i.0)
  | yes from ↦ elim (dec_lt gpa (r.guest_physical_start + r.memsize)) [
    | no high ↦ no (λ i. high i.1)
    | yes below ↦ yes (from, below)
  ]
]

contains_iff : (r : Region) (gpa : ℕ) → Fits r → gpa < word → (contains r gpa ≡ true) ↔ Inside gpa r
unfolding contains
contains_iff r gpa f h = ground arith

outside_of_Disjoint :
    (gpa : ℕ) (r : Region) (rest : List Region)
    → Inside gpa r
    → All (Disjoint r) rest
    → All (λ s. ¬ Inside gpa s) rest
outside_of_Disjoint gpa r [] h d = tt
outside_of_Disjoint gpa r (s ∷ rest) h d =
    ((λ i. omega arith), outside_of_Disjoint gpa r rest h d.1)

translate-none :
    (tbl : List Region) (gpa : ℕ)
    → Separate tbl
    → gpa < word
    → All (λ s. ¬ Inside gpa s) tbl
    → translate tbl gpa ≡ none
unfolding translate
translate-none [] gpa s h out = refl
translate-none (r ∷ tbl) gpa s h out =
    ground (arith, contains_iff r gpa s.0 h, out.0, translate-none tbl gpa s.2 h out.1)

All-get {ℓ} :
    {A : Type ℓ} (P : A → Type 0) (xs : List A) (i : ℕ) {x : A}
    → All P xs
    → get_elem? xs i ≡ some x
    → P x
All-get P [] i h e = cc
All-get P (x ∷ xs) zero h e = subst P (some_inj e) h.0
All-get P (x ∷ xs) (suc i) h e = All-get P xs i h.1 e

translate_hit :
    (r : Region) (rest : List Region) (gpa : ℕ)
    → Fits r
    → gpa < word
    → Inside gpa r
    → translate (r ∷ rest) gpa ≡ some (r.host_virtual + (gpa - r.guest_physical_start))
unfolding translate
translate_hit r rest gpa f h inside = ground (arith, contains_iff r gpa f h, f.guest, f.host)

translate_miss :
    (r : Region) (rest : List Region) (gpa : ℕ)
    → Fits r
    → gpa < word
    → ¬ Inside gpa r
    → translate (r ∷ rest) gpa ≡ translate rest gpa
unfolding translate
translate_miss r rest gpa f h outside = ground (arith, contains_iff r gpa f h)

translate_found :
    (tbl : List Region) (i : ℕ) (r : Region) (gpa : ℕ)
    → Separate tbl
    → gpa < word
    → get_elem? tbl i ≡ some r
    → Inside gpa r
    → (translate tbl gpa ≡ some (r.host_virtual + (gpa - r.guest_physical_start)))
      × (r.host_virtual + (gpa - r.guest_physical_start) < word)
translate_found [] i r gpa s h e inside = cc
translate_found (q ∷ tbl) zero r gpa s h e inside =
    let same : q ≡ r = some_inj e in
    let f : Fits r = subst Fits same s.0 in
    (rw same (translate_hit r tbl gpa f h inside), omega (arith, f.guest, f.host))
translate_found (q ∷ tbl) (suc i) r gpa s h e inside =
    let d = All-get (Disjoint q) tbl i s.1 e in
    let rest = translate_found tbl i r gpa s.2 h e inside in
    (translate_miss q tbl gpa s.0 h (λ hit. omega arith) ∙ rest.0, rest.1)

-- In a valid table, an address in the region number `i` is translated to the same offset in that
-- region's host range, without a wrap; an address in no region is refused.
pub translate_lem :
    (tbl : List Region) (gpa : ℕ)
    → IsValid tbl
    → gpa < word
    → ((i : ℕ) (r : Region)
        → get_elem? tbl i ≡ some r
        → Inside gpa r
        → (translate tbl gpa ≡ some (r.host_virtual + (gpa - r.guest_physical_start)))
          × (r.host_virtual + (gpa - r.guest_physical_start) < word))
      × (All (λ r. ¬ Inside gpa r) tbl → translate tbl gpa ≡ none)
translate_lem tbl gpa v h = (
  λ i r e inside. translate_found tbl i r gpa v.separate h e inside,
  translate-none tbl gpa v.separate h,
)

translate-snoc_miss :
    (tbl : List Region) (rgn : Region) (gpa : ℕ)
    → Separate (tbl ++ (rgn ∷ []))
    → gpa < word
    → ¬ Inside gpa rgn
    → translate (tbl ++ (rgn ∷ [])) gpa ≡ translate tbl gpa
translate-snoc_miss [] rgn gpa s h out = translate_miss rgn [] gpa s.0 h out
translate-snoc_miss (q ∷ tbl) rgn gpa s h out = elim (inside_dec gpa q) [
  | yes hit ↦
      translate_hit q (tbl ++ (rgn ∷ [])) gpa s.0 h hit ∙ sym (translate_hit q tbl gpa s.0 h hit)
  | no miss ↦
      translate_miss q (tbl ++ (rgn ∷ [])) gpa s.0 h miss
      ∙ translate-snoc_miss tbl rgn gpa s.2 h out
      ∙ sym (translate_miss q tbl gpa s.0 h miss)
]

last_get :
    (tbl : List Region) (rgn : Region) → get_elem? (tbl ++ (rgn ∷ [])) (length tbl) ≡ some rgn
last_get [] rgn = refl
last_get (q ∷ tbl) rgn = last_get tbl rgn

-- A successful registration makes the addresses of the new region translate to it, and changes
-- the translation of no other address.
pub translate-region_add :
    (tbl : List Region) (rgn : Region) (gpa : ℕ)
    → IsValid tbl
    → IsWords rgn
    → gpa < word
    → (region_add tbl rgn).0 ≡ Code.success
    → (Inside gpa rgn
        → translate (region_add tbl rgn).1 gpa
          ≡ some (rgn.host_virtual + (gpa - rgn.guest_physical_start)))
      × (¬ Inside gpa rgn → translate (region_add tbl rgn).1 gpa ≡ translate tbl gpa)
translate-region_add tbl rgn gpa v w h e = (
  λ inside. rw stored (translate_found _ (length tbl) rgn gpa valid h (last_get tbl rgn) inside).0,
  λ out. rw stored (translate-snoc_miss tbl rgn gpa valid h out),
)
  where
    stored : (region_add tbl rgn).1 ≡ tbl ++ (rgn ∷ [])
    stored = region_add-stores tbl rgn e

    valid : Separate (tbl ++ (rgn ∷ []))
    valid = subst Separate stored (region_add-IsValid tbl rgn v w).0.separate
