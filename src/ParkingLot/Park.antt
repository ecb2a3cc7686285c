-- ===== src/ParkingLot/Park.antt =====
-- `assigner` on a valid lot: which spot is taken.
use systems_drills.Base.{
  ℕ, ◌+◌, ◌-◌, ◌<◌, ◌≡◌, ◌≢◌, ◌⊎◌, inl, inr, refl, Bool, true, false, not, ◌&&◌, Option, none, some,
  List, [], ◌∷◌, arith, ◌==◌, ==_iff, ==_ne, length, get_or, set, store?-eq-set, length-set,
  Bool-cases, ℕ_discrete, sym, subst, ap, ◌∙◌,
}
use systems_drills.Base.Bits.{word, sub64}
use systems_drills.ParkingLot.{
  Size, Vehicle, Ticket, Spot, Lot, count_of, set_count, is_free, rank, spot_at, scan, occupy,
  sizes_from, smallest_fit, assign_sizes, assigner,
}
use systems_drills.ParkingLot.Scan.{
  HasSpots, FirstFree, no_spot, spot_of, scan_lem, get_spot, index_lt, FoundFrom,
}
use systems_drills.ParkingLot.Count.{
  ValidLot, one_if, count_free, count_free-set, count_free_le, NoneBelow-count, count_of-set_count,
}

-- The lot with a spot of size `s` taken or given back, and the counter of that size set to `c`.
abbrev pub with_spot : Lot → Size → Ticket → Bool → ℕ → Lot
with_spot lot s t taken c = record lot {
  spots = set lot.spots (spot_at lot t.level t.spot) (record { occupied = taken; size = s });
  free_count = set_count lot.free_count s c;
}

abbrev pub parked : Lot → Size → Ticket → Lot
parked lot s t = with_spot lot s t true (count_of lot.free_count s - 1)

abbrev pub InLot : Lot → Ticket → Type 0
InLot lot t = (t.level < lot.levels) × (t.spot < lot.spots_floor)

pub in_block :
    (lot : Lot) (t : Ticket)
    → HasSpots lot
    → InLot lot t
    → spot_at lot t.level t.spot < length lot.spots
in_block lot t h (p, q) = omega (arith, h, index_lt lot.levels lot.spots_floor t.level t.spot p q)

rank_eq : (s t : Size) → rank s == rank t ≡ true → s ≡ t
rank_eq Size.small Size.small e = refl
rank_eq Size.medium Size.medium e = refl
rank_eq Size.large Size.large e = refl
rank_eq Size.small Size.medium e = cc
rank_eq Size.small Size.large e = cc
rank_eq Size.medium Size.small e = cc
rank_eq Size.medium Size.large e = cc
rank_eq Size.large Size.small e = cc
rank_eq Size.large Size.medium e = cc

pub rank_refl : (s : Size) → rank s == rank s ≡ true
rank_refl s = (==_iff (rank s) (rank s)).1 refl

pub free_spot :
    (s : Size) (sp : Spot) → is_free s sp ≡ true → sp ≡ record { occupied = false; size = s }
free_spot s sp e = spot_eq (ground arith) (rank_eq sp.size s (ground arith))
  where
    spot_eq : sp.occupied ≡ false → sp.size ≡ s → sp ≡ record { occupied = false; size = s }
    spot_eq p q = λ i. record { occupied = p i; size = q i }

-- A lot stays valid when one of its spots changes and the counter of its size with it.
pub with_spot-Valid :
    (lot : Lot) (s : Size) (t : Ticket) (taken : Bool) (c : ℕ)
    → ValidLot lot
    → InLot lot t
    → (spot_of lot t.level t.spot).size ≡ s
    → c + one_if (is_free s (spot_of lot t.level t.spot))
      ≡ count_of lot.free_count s + one_if (not taken)
    → ValidLot (with_spot lot s t taken c)
with_spot-Valid lot s t taken c v in_lot same_size e = record {
  has_spots = length-set lot.spots k new ∙ v.has_spots;
  small_enough = omega (arith, v.small_enough, length-set lot.spots k new);
  counted = each;
}
  where
    k : ℕ
    k = spot_at lot t.level t.spot

    new : Spot
    new = record { occupied = taken; size = s }

    share :
        (u : Size)
        → count_free u (set lot.spots k new) + one_if (is_free u (get_or lot.spots k no_spot))
          ≡ count_free u lot.spots + one_if (is_free u new)
    share u = count_free-set u lot.spots k new (in_block lot t v.has_spots in_lot)

    own : c ≡ count_free s (set lot.spots k new)
    own = omega (
      arith,
      e,
      share s,
      v.counted s,
      ap (λ b. one_if (not taken && b)) (rank_refl s),
      and_true (not taken),
    )
      where
        and_true : (b : Bool) → one_if (b && true) ≡ one_if b
        and_true true = refl
        and_true false = refl

    other :
        (u : Size)
        → rank s == rank u ≡ false
        → count_free u lot.spots ≡ count_free u (set lot.spots k new)
    other u ne = omega (
      arith,
      share u,
      not_free u (get_or lot.spots k no_spot) (ap (λ (z : Size). rank z == rank u) same_size ∙ ne),
      not_free u new ne,
    )
      where
        not_free :
            (u : Size) (sp : Spot) → rank sp.size == rank u ≡ false → one_if (is_free u sp) ≡ 0
        not_free u sp e = ground arith

    each :
        (u : Size) → count_of (set_count lot.free_count s c) u ≡ count_free u (set lot.spots k new)
    each u = elim (Bool-cases (rank s == rank u)) [
      | inl same ↦
          (count_of-set_count lot.free_count s u c ∙ rw same)
          ∙ subst (λ z. c ≡ count_free z (set lot.spots k new)) (rank_eq s u same) own
      | inr ne ↦ (count_of-set_count lot.free_count s u c ∙ rw ne) ∙ v.counted u ∙ other u ne
    ]

count-bound : (lot : Lot) (s : Size) → ValidLot lot → count_of lot.free_count s < word
count-bound lot s v = omega (arith, v.counted s, v.small_enough, count_free_le s lot.spots)

sub64-one : (c : ℕ) → c ≢ 0 → c < word → sub64 c 1 ≡ c - 1
sub64-one c nz lt = omega arith

occupy_lem :
    (lot : Lot) (s : Size) (t : Ticket)
    → ValidLot lot
    → FirstFree lot s 0 t
    → count_of lot.free_count s ≢ 0
    → occupy lot s t ≡ some (parked lot s t)
unfolding occupy
occupy_lem lot s t v first some_free =
    let in_lot : InLot lot t = (first.level_in, first.spot_in) in
    rw (
      get_spot lot t.level t.spot v.has_spots first.level_in first.spot_in,
      store?-eq-set lot.spots (spot_at lot t.level t.spot)
          (record { occupied = true; size = (spot_of lot t.level t.spot).size })
          (in_block lot t v.has_spots in_lot),
      sub64-one (count_of lot.free_count s) some_free (count-bound lot s v),
      free_spot s (spot_of lot t.level t.spot) first.free,
    )

parked-Valid :
    (lot : Lot) (s : Size) (t : Ticket)
    → ValidLot lot
    → FirstFree lot s 0 t
    → count_of lot.free_count s ≢ 0
    → ValidLot (parked lot s t)
parked-Valid lot s t v first some_free =
    with_spot-Valid lot s t true (count_of lot.free_count s - 1) v (first.level_in, first.spot_in)
      (ap (λ (sp : Spot). sp.size) (free_spot s (spot_of lot t.level t.spot) first.free))
      (omega (arith, ap one_if first.free, some_free))

-- The first of the sizes that has a free spot gives its first one; with none, nothing changes.
abbrev pub FirstFit : Lot → List Size → Option Ticket → Lot → Type 0
FirstFit lot [] o lot' = (o ≡ none) × (lot' ≡ lot)
FirstFit lot (s ∷ sizes) o lot' =
    (count_free s lot.spots ≡ 0) × FirstFit lot sizes o lot'
    ⊎ (t : Ticket) × (o ≡ some t) × FirstFree lot s 0 t × (lot' ≡ parked lot s t)

assign_sizes-full :
    (lot : Lot) (s : Size) (sizes : List Size)
    → count_of lot.free_count s ≡ 0
    → assign_sizes lot (s ∷ sizes) ≡ assign_sizes lot sizes
unfolding assign_sizes
assign_sizes-full lot s sizes e = rw e

assign_sizes-found :
    (lot : Lot) (s : Size) (sizes : List Size) (t : Ticket)
    → count_of lot.free_count s ≢ 0
    → scan lot.levels lot s 0 ≡ some (some t)
    → occupy lot s t ≡ some (parked lot s t)
    → assign_sizes lot (s ∷ sizes) ≡ some (some t, parked lot s t)
unfolding assign_sizes
assign_sizes-found lot s sizes t nz e f = rw (==_ne (count_of lot.free_count s) 0 nz, e, f)

assign_sizes_lem :
    (lot : Lot) (sizes : List Size)
    → ValidLot lot
    → (o : Option Ticket) × (lot' : Lot) × (assign_sizes lot sizes ≡ some (o, lot'))
      × ValidLot lot'
      × FirstFit lot sizes o lot'
unfolding assign_sizes
assign_sizes_lem lot [] v = (none, lot, refl, v, (refl, refl))
assign_sizes_lem lot (s ∷ sizes) v = elim (ℕ_discrete (count_of lot.free_count s) 0) [
  | yes z ↦
      let (o, lot', run, v', fit) = assign_sizes_lem lot sizes v in
      (o, lot', assign_sizes-full lot s sizes z ∙ run, v', inl (sym (v.counted s) ∙ z, fit))
  | no nz ↦
      let (o, run, found) =
        scan_lem lot.levels lot s 0 v.has_spots (omega arith) (λ r ge lt. absurd (omega arith)) in
      go o run found nz
]
  where
    go :
        (o : Option Ticket)
        → scan lot.levels lot s 0 ≡ some o
        → FoundFrom lot s o
        → count_of lot.free_count s ≢ 0
        → (o : Option Ticket) × (lot' : Lot) × (assign_sizes lot (s ∷ sizes) ≡ some (o, lot'))
          × ValidLot lot'
          × FirstFit lot (s ∷ sizes) o lot'
    go none run found nz = absurd (nz (v.counted s ∙ NoneBelow-count lot s v.has_spots found))
    go (some t) run first nz = (
      some t,
      parked lot s t,
      assign_sizes-found lot s sizes t nz run (occupy_lem lot s t v first nz),
      parked-Valid lot s t v first nz,
      inr (t, refl, first, refl),
    )

pub assigner-FirstFit :
    (lot : Lot) (v : Vehicle)
    → ValidLot lot
    → (o : Option Ticket) × (lot' : Lot) × (assigner lot v ≡ some (o, lot'))
      × ValidLot lot'
      × FirstFit lot (sizes_from (smallest_fit v)) o lot'
unfolding assigner
assigner-FirstFit lot v ok = assign_sizes_lem lot (sizes_from (smallest_fit v)) ok
