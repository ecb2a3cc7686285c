-- ===== src/ParkingLot/Scan.antt =====
-- The two inner loops of `assigner`: the first free spot of a size, level by level.
use systems_drills.Base.{
  ℕ, zero, suc, ◌+◌, ◌*◌, ◌≤◌, ◌<◌, ◌≡◌, inl, inr, refl, true, false, Option, none, some, arith,
  length, get_elem?, get_or, get_elem?-eq-get_or, ◌∙◌, Bool-cases, ℕ_discrete, subst, sym,
}
use systems_drills.ParkingLot.{Size, Ticket, Spot, Lot, spot_at, is_free, scan_level, scan}

abbrev pub HasSpots : Lot → Type 0
HasSpots lot = length lot.spots ≡ lot.levels * lot.spots_floor

abbrev pub no_spot : Spot
no_spot = record { occupied = true; size = Size.small }

abbrev pub spot_of : Lot → ℕ → ℕ → Spot
spot_of lot i j = get_or lot.spots (spot_at lot i j) no_spot

-- No spot of level `i` before spot `j` is free; no spot of a level from `from` before `i` is.
abbrev pub NoneOn : Lot → Size → ℕ → ℕ → ℕ → Type 0
NoneOn lot s i from j = (c : ℕ) → from ≤ c → c < j → is_free s (spot_of lot i c) ≡ false

abbrev pub NoneBelow : Lot → Size → ℕ → ℕ → Type 0
NoneBelow lot s from i = (r : ℕ) → from ≤ r → r < i → NoneOn lot s r 0 lot.spots_floor

-- The ticket is the first free spot from level `from` on.
pub record FirstFree (lot : Lot) (s : Size) (from : ℕ) (t : Ticket) : Type 0 where
  pub level_in : t.level < lot.levels
  pub spot_in : t.spot < lot.spots_floor
  pub free : is_free s (spot_of lot t.level t.spot) ≡ true
  pub none_before : NoneOn lot s t.level 0 t.spot
  pub none_below : NoneBelow lot s from t.level

pub index_lt : (l f i j : ℕ) → i < l → j < f → i * f + j < l * f
index_lt l f i j p q = grind arith

pub get_spot :
    (lot : Lot) (i j : ℕ)
    → HasSpots lot
    → i < lot.levels
    → j < lot.spots_floor
    → get_elem? lot.spots (spot_at lot i j) ≡ some (spot_of lot i j)
get_spot lot i j h p q =
    get_elem?-eq-get_or lot.spots (spot_at lot i j) no_spot
      (omega (arith, h, index_lt lot.levels lot.spots_floor i j p q))

scan_level-free :
    (left : ℕ) (lot : Lot) (s : Size) (i j : ℕ)
    → HasSpots lot
    → i < lot.levels
    → j < lot.spots_floor
    → is_free s (spot_of lot i j) ≡ true
    → scan_level (suc left) lot s i j ≡ some (some (record { level = i; spot = j }))
unfolding scan_level
scan_level-free left lot s i j h p q e = rw (get_spot lot i j h p q, e)

scan_level-next :
    (left : ℕ) (lot : Lot) (s : Size) (i j : ℕ)
    → HasSpots lot
    → i < lot.levels
    → j < lot.spots_floor
    → is_free s (spot_of lot i j) ≡ false
    → scan_level (suc left) lot s i j ≡ scan_level left lot s i (j + 1)
unfolding scan_level
scan_level-next left lot s i j h p q e = rw (get_spot lot i j h p q, e)

NoneOn-suc :
    (lot : Lot) (s : Size) (i from j : ℕ)
    → NoneOn lot s i from j
    → is_free s (spot_of lot i j) ≡ false
    → NoneOn lot s i from (j + 1)
NoneOn-suc lot s i from j before e c ge lt = elim (ℕ_discrete c j) [
  | yes same ↦ rw same e
  | no other ↦ before c ge (omega arith)
]

-- What a scan of level `i` finds.
abbrev FoundOn : Lot → Size → ℕ → Option Ticket → Type 0
FoundOn lot s i none = NoneOn lot s i 0 lot.spots_floor
FoundOn lot s i (some t) =
    (t.level ≡ i)
    × (t.spot < lot.spots_floor)
    × (is_free s (spot_of lot i t.spot) ≡ true)
    × NoneOn lot s i 0 t.spot

scan_level_lem :
    (left : ℕ) (lot : Lot) (s : Size) (i j : ℕ)
    → HasSpots lot
    → i < lot.levels
    → left + j ≡ lot.spots_floor
    → NoneOn lot s i 0 j
    → (o : Option Ticket) × (scan_level left lot s i j ≡ some o) × FoundOn lot s i o
unfolding scan_level
scan_level_lem zero lot s i j h p e before = (none, refl, λ c ge lt. before c ge (omega arith))
scan_level_lem (suc left) lot s i j h p e before = elim (Bool-cases (is_free s (spot_of lot i j))) [
  | inl free ↦ (
    some (record { level = i; spot = j }),
    scan_level-free left lot s i j h p (omega arith) free,
    (refl, omega arith, free, before),
  )
  | inr taken ↦
      let (o, run, found) =
        scan_level_lem left lot s i (j + 1) h p (omega arith)
          (NoneOn-suc lot s i 0 j before taken) in
      (o, scan_level-next left lot s i j h p (omega arith) taken ∙ run, found)
]

scan-found :
    (left : ℕ) (lot : Lot) (s : Size) (i : ℕ) (t : Ticket)
    → scan_level lot.spots_floor lot s i 0 ≡ some (some t)
    → scan (suc left) lot s i ≡ some (some t)
unfolding scan
scan-found left lot s i t e = rw e

scan-next :
    (left : ℕ) (lot : Lot) (s : Size) (i : ℕ)
    → scan_level lot.spots_floor lot s i 0 ≡ some none
    → scan (suc left) lot s i ≡ scan left lot s (i + 1)
unfolding scan
scan-next left lot s i e = rw e

-- What a scan from level `i` finds.
abbrev pub FoundFrom : Lot → Size → Option Ticket → Type 0
FoundFrom lot s none = NoneBelow lot s 0 lot.levels
FoundFrom lot s (some t) = FirstFree lot s 0 t

NoneBelow-suc :
    (lot : Lot) (s : Size) (i : ℕ)
    → NoneBelow lot s 0 i
    → NoneOn lot s i 0 lot.spots_floor
    → NoneBelow lot s 0 (i + 1)
NoneBelow-suc lot s i below on r ge lt = elim (ℕ_discrete r i) [
  | yes same ↦ subst (λ r. NoneOn lot s r 0 lot.spots_floor) (sym same) on
  | no other ↦ below r ge (omega arith)
]

FirstFree-level :
    (lot : Lot) (s : Size) (i : ℕ) (t : Ticket)
    → i < lot.levels
    → NoneBelow lot s 0 i
    → FoundOn lot s i (some t)
    → FirstFree lot s 0 t
FirstFree-level lot s i t p below (same, spot_in, free, before) = record {
  level_in = rw same p;
  spot_in = spot_in;
  free = rw same free;
  none_before = subst (λ r. NoneOn lot s r 0 t.spot) (sym same) before;
  none_below = subst (λ r. NoneBelow lot s 0 r) (sym same) below;
}

pub scan_lem :
    (left : ℕ) (lot : Lot) (s : Size) (i : ℕ)
    → HasSpots lot
    → left + i ≡ lot.levels
    → NoneBelow lot s 0 i
    → (o : Option Ticket) × (scan left lot s i ≡ some o) × FoundFrom lot s o
unfolding scan
scan_lem zero lot s i h e below = (none, refl, λ r ge lt. below r ge (omega arith))
scan_lem (suc left) lot s i h e below =
    let (o, run, found) =
      scan_level_lem lot.spots_floor lot s i 0 h (omega arith) (omega arith)
        (λ c ge lt. absurd (omega arith)) in
    go o run found (λ rest. scan_lem left lot s (i + 1) h (omega arith) rest)
  where
    go :
        (o : Option Ticket)
        → scan_level lot.spots_floor lot s i 0 ≡ some o
        → FoundOn lot s i o
        → (NoneBelow lot s 0 (i + 1)
            → (o : Option Ticket) × (scan left lot s (i + 1) ≡ some o) × FoundFrom lot s o)
        → (o : Option Ticket) × (scan (suc left) lot s i ≡ some o) × FoundFrom lot s o
    go (some t) run found next =
        (some t, scan-found left lot s i t run, FirstFree-level lot s i t (omega arith) below found)
    go none run found next =
        let (o, more, first) = next (NoneBelow-suc lot s i below found) in
        (o, scan-next left lot s i run ∙ more, first)
