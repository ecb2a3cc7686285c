-- ===== src/RegionTable/Add.antt =====
-- What `region_add` accepts, and the invariant of the table that it keeps.
use systems_drills.Base.{
  ◌+◌, ◌≤◌, ◌<◌, ◌≡◌, ◌≢◌, ◌↔◌, ◌⊎◌, inl, inr, false, List, [], ◌∷◌, ◌++◌, length, length-append,
  arith,
}
use systems_drills.Base.Bits.{word}
use systems_drills.RegionTable.{Code, Region, num_regions, overlaps, any_overlaps, region_add}

-- A region that `region_add` lets through on its own: not empty, and neither end wraps.
pub record Fits (r : Region) : Type 0 where
  pub nonempty : r.memsize ≢ 0
  pub guest : r.guest_physical_start + r.memsize < word
  pub host : r.host_virtual + r.memsize < word

abbrev pub IsWords : Region → Type 0
IsWords r = (r.guest_physical_start < word) × (r.memsize < word) × (r.host_virtual < word)

-- Half-open address ranges with no common address.
abbrev pub Disjoint : Region → Region → Type 0
Disjoint a b =
    (a.guest_physical_start + a.memsize ≤ b.guest_physical_start)
    ⊎ (b.guest_physical_start + b.memsize ≤ a.guest_physical_start)

abbrev pub All {ℓ} : {A : Type ℓ} → (A → Type 0) → List A → Type 0
All P [] = Unit
All P (x ∷ xs) = P x × All P xs

-- Every entry fits and is disjoint from every later one.
abbrev pub Separate : List Region → Type 0
Separate [] = Unit
Separate (r ∷ rest) = Fits r × All (Disjoint r) rest × Separate rest

pub record IsValid (tbl : List Region) : Type 0 where
  pub separate : Separate tbl
  pub bounded : length tbl ≤ num_regions

overlaps_iff : (a b : Region) → Fits a → Fits b → (overlaps a b ≡ false) ↔ Disjoint b a
unfolding overlaps
overlaps_iff a b fa fb = ground arith

any_overlaps_iff :
    (a : Region) (tbl : List Region)
    → Fits a
    → Separate tbl
    → (any_overlaps a tbl ≡ false) ↔ All (λ b. Disjoint b a) tbl
unfolding any_overlaps
any_overlaps_iff a [] fa s = ground arith
any_overlaps_iff a (b ∷ tbl) fa s =
    ground (arith, overlaps_iff a b fa s.0, any_overlaps_iff a tbl fa s.2)

All-snoc {ℓ} :
    {A : Type ℓ} (P : A → Type 0) (xs : List A) (x : A) → All P xs → P x → All P (xs ++ (x ∷ []))
All-snoc P [] x h p = (p, tt)
All-snoc P (y ∷ xs) x h p = (h.0, All-snoc P xs x h.1 p)

Separate-snoc :
    (tbl : List Region) (a : Region)
    → Separate tbl
    → Fits a
    → All (λ b. Disjoint b a) tbl
    → Separate (tbl ++ (a ∷ []))
Separate-snoc [] a s fa h = (fa, tt, tt)
Separate-snoc (b ∷ tbl) a s fa h =
    (s.0, All-snoc (Disjoint b) tbl a s.1 h.0, Separate-snoc tbl a s.2 fa h.1)

-- What a region must satisfy for `region_add` to register it in a given table.
pub record Acceptable (tbl : List Region) (rgn : Region) : Type 0 where
  pub fits : Fits rgn
  pub space : length tbl < num_regions
  pub apart : All (λ old. Disjoint old rgn) tbl

-- In a valid table a region is registered exactly if it is not empty, wraps in neither address
-- space, the table has space, and it is disjoint from every registered region.
pub region_add_iff :
    (tbl : List Region) (rgn : Region)
    → IsValid tbl
    → IsWords rgn
    → ((region_add tbl rgn).0 ≡ Code.success) ↔ Acceptable tbl rgn
unfolding region_add
region_add_iff tbl rgn v w = (
  λ e.
      let fits : Fits rgn = ground arith in
      record {
        fits = fits;
        space = ground arith;
        apart = (any_overlaps_iff rgn tbl fits v.separate).0 (ground arith);
      },
  λ a.
      let free = (any_overlaps_iff rgn tbl a.fits v.separate).1 a.apart in
      let fits = a.fits in ground (arith, a.space, free, fits.guest, fits.host, fits.nonempty),
)

pub region_add-stores :
    (tbl : List Region) (rgn : Region)
    → (region_add tbl rgn).0 ≡ Code.success
    → (region_add tbl rgn).1 ≡ tbl ++ (rgn ∷ [])
unfolding region_add
region_add-stores tbl rgn e = ground arith

region_add-keeps :
    (tbl : List Region) (rgn : Region)
    → (region_add tbl rgn).0 ≢ Code.success
    → (region_add tbl rgn).1 ≡ tbl
unfolding region_add
region_add-keeps tbl rgn e = ground arith

Code-discrete : Discrete Code
Code-discrete = hlevel

-- Every call keeps the table valid; it adds the region at the end if it reports success, and
-- changes nothing if it reports an error.
pub region_add-IsValid :
    (tbl : List Region) (rgn : Region)
    → IsValid tbl
    → IsWords rgn
    → IsValid (region_add tbl rgn).1
      × (((region_add tbl rgn).0 ≡ Code.success) × ((region_add tbl rgn).1 ≡ tbl ++ (rgn ∷ []))
          ⊎ ((region_add tbl rgn).0 ≢ Code.success) × ((region_add tbl rgn).1 ≡ tbl))
region_add-IsValid tbl rgn v w = elim (Code-discrete (region_add tbl rgn).0 Code.success) [
  | yes done ↦
      let a = (region_add_iff tbl rgn v w).0 done in
      let e = region_add-stores tbl rgn done in
      (
        rw e (record {
          separate = Separate-snoc tbl rgn v.separate a.fits a.apart;
          bounded = omega (arith, length-append tbl (rgn ∷ []), a.space);
        }),
        inl (done, e),
      )
  | no failed ↦ let e = region_add-keeps tbl rgn failed in (rw e v, inr (failed, e))
]
