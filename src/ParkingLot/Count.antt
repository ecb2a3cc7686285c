-- ===== src/ParkingLot/Count.antt =====
-- The counters of a lot and its spots: what a valid lot is, and how one spot changes the counts.
use systems_drills.Base.{
  ℕ, zero, suc, ◌+◌, ◌*◌, ◌/◌, ◌%◌, ◌≤◌, ◌<◌, ◌≡◌, inl, inr, refl, Bool, false, List, [], ◌∷◌,
  arith, ◌==◌, if◌then◌else◌, length, get_or, set, Bool-cases, ℕ_discrete, subst, ap,
}
use systems_drills.Base.Bits.{word}
use systems_drills.ParkingLot.{Size, Spot, Lot, Counts, count_of, set_count, is_free, rank}
use systems_drills.ParkingLot.Scan.{HasSpots, NoneBelow, no_spot}
use native.Mathlib.Nat.{div-add-mod', mod-lt, div-lt_iff_lt-mul}

abbrev pub one_if : Bool → ℕ
one_if t = if t then 1 else 0

-- How many spots of a size are free.
abbrev pub count_free : Size → List Spot → ℕ
count_free s [] = 0
count_free s (sp ∷ rest) = one_if (is_free s sp) + count_free s rest

-- Every spot of every level is there, and each counter is the number of free spots of its size.
pub record ValidLot (lot : Lot) : Type 0 where
  pub has_spots : HasSpots lot
  pub small_enough : length lot.spots < word
  pub counted : (s : Size) → count_of lot.free_count s ≡ count_free s lot.spots

-- One spot changes the count by its own share.
pub count_free-set :
    (s : Size) (spots : List Spot) (i : ℕ) (sp : Spot)
    → i < length spots
    → count_free s (set spots i sp) + one_if (is_free s (get_or spots i no_spot))
      ≡ count_free s spots + one_if (is_free s sp)
count_free-set s [] i sp lt = absurd (omega arith)
count_free-set s (q ∷ spots) zero sp lt = omega arith
count_free-set s (q ∷ spots) (suc i) sp lt =
    omega (arith, count_free-set s spots i sp (omega arith))

pub count_free_le : (s : Size) (spots : List Spot) → count_free s spots ≤ length spots
count_free_le s [] = omega arith
count_free_le s (sp ∷ spots) = ground (arith, count_free_le s spots)

-- A spot that is not free leaves space below the length.
pub count_free_lt :
    (s : Size) (spots : List Spot) (i : ℕ)
    → i < length spots
    → is_free s (get_or spots i no_spot) ≡ false
    → count_free s spots < length spots
count_free_lt s [] i lt e = absurd (omega arith)
count_free_lt s (sp ∷ spots) zero lt e = rw e (omega (arith, count_free_le s spots))
count_free_lt s (sp ∷ spots) (suc i) lt e = ground (arith, count_free_lt s spots i (omega arith) e)

-- No free spot, no count.
pub count_free-none :
    (s : Size) (spots : List Spot)
    → ((i : ℕ) → i < length spots → is_free s (get_or spots i no_spot) ≡ false)
    → count_free s spots ≡ 0
count_free-none s [] all = refl
count_free-none s (sp ∷ spots) all = omega (
  arith,
  ap one_if (all 0 (omega arith)),
  count_free-none s spots (λ i lt. all (suc i) (omega arith)),
)

-- And back.
pub none_of_count_free :
    (s : Size) (spots : List Spot) (i : ℕ)
    → count_free s spots ≡ 0
    → i < length spots
    → is_free s (get_or spots i no_spot) ≡ false
none_of_count_free s [] i e lt = absurd (omega arith)
none_of_count_free s (sp ∷ spots) zero e lt = elim (Bool-cases (is_free s sp)) [
  | inl free ↦ absurd (omega (arith, ap one_if free))
  | inr taken ↦ taken
]
none_of_count_free s (sp ∷ spots) (suc i) e lt =
    none_of_count_free s spots i (omega arith) (omega arith)

-- Every index of the block is a spot of a level.
index_split : (l f i : ℕ) → i < l * f → (i / f < l) × (i % f < f) × (i / f * f + i % f ≡ i)
index_split l f i lt = elim (ℕ_discrete f 0) [
  | yes z ↦ absurd (none_below (rw z at lt))
  | no nz ↦
      ((div-lt_iff_lt-mul (omega (arith, nz))).1 lt, mod-lt i (omega (arith, nz)), div-add-mod' i f)
]
  where
    none_below : i < l * 0 → ⊥
    none_below below = omega arith

-- A scan that finds nothing means that no spot of the size is free.
pub NoneBelow-count :
    (lot : Lot) (s : Size)
    → HasSpots lot
    → NoneBelow lot s 0 lot.levels
    → count_free s lot.spots ≡ 0
NoneBelow-count lot s h below = count_free-none s lot.spots each
  where
    each : (i : ℕ) → i < length lot.spots → is_free s (get_or lot.spots i no_spot) ≡ false
    each i lt =
        let (row, col, same) = index_split lot.levels lot.spots_floor i (omega (arith, h)) in
        subst (λ k. is_free s (get_or lot.spots k no_spot) ≡ false) same
          (below (i / lot.spots_floor) (omega arith) row (i % lot.spots_floor) (omega arith) col)

pub count_of-set_count :
    (c : Counts) (s t : Size) (v : ℕ)
    → count_of (set_count c s v) t ≡ (if rank s == rank t then v else count_of c t)
count_of-set_count c Size.small Size.small v = refl
count_of-set_count c Size.small Size.medium v = refl
count_of-set_count c Size.small Size.large v = refl
count_of-set_count c Size.medium Size.small v = refl
count_of-set_count c Size.medium Size.medium v = refl
count_of-set_count c Size.medium Size.large v = refl
count_of-set_count c Size.large Size.small v = refl
count_of-set_count c Size.large Size.medium v = refl
count_of-set_count c Size.large Size.large v = refl
