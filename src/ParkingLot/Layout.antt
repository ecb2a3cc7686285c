-- ===== src/ParkingLot/Layout.antt =====
-- How many spots of each size a fresh lot has.
use native.Mathlib.Nat.{mod-eq_of_lt}
use systems_drills.Base.{
  ℕ, zero, suc, ◌+◌, ◌-◌, ◌*◌, ◌≤◌, ◌<◌, ◌≡◌, refl, Option, some, List, [], ◌∷◌, ◌++◌, arith, ==_ne,
  length, length-append, replicate, sym, ◌∙◌,
}
use systems_drills.Base.Bits.{word, add64, mul64}
use systems_drills.ParkingLot.{Size, Spot, Lot, count_of, create_lot, free_spots}
use systems_drills.ParkingLot.Count.{ValidLot, count_free}
use systems_drills.ParkingLot.Create.{
  blank, row_from, rows, length-row_from, blanks-replicate, lay_levels_lem,
}

-- The number of spots of a size on a level.
abbrev pub per_level : ℕ → ℕ → ℕ → Size → ℕ
per_level a b c Size.small = a
per_level a b c Size.medium = b
per_level a b c Size.large = c

-- The spots of a size from spot `j` of a level on.
abbrev rest_of : ℕ → ℕ → ℕ → Size → ℕ → ℕ
rest_of a b c Size.small j = a - j
rest_of a b c Size.medium j = a + b - j - (a - j)
rest_of a b c Size.large j = a + b + c - j - (a + b - j)

count_free-row_from :
    (a b c : ℕ) (s : Size) (left j : ℕ)
    → a + b < word
    → left + j ≡ a + b + c
    → count_free s (row_from a b left j) ≡ rest_of a b c s j
count_free-row_from a b c Size.small zero j lt e = omega arith
count_free-row_from a b c Size.medium zero j lt e = omega arith
count_free-row_from a b c Size.large zero j lt e = omega arith
count_free-row_from a b c Size.small (suc left) j lt e =
    ground (arith, count_free-row_from a b c Size.small left (j + 1) lt (omega arith))
count_free-row_from a b c Size.medium (suc left) j lt e =
    ground (arith, count_free-row_from a b c Size.medium left (j + 1) lt (omega arith))
count_free-row_from a b c Size.large (suc left) j lt e =
    ground (arith, count_free-row_from a b c Size.large left (j + 1) lt (omega arith))

count_free-append :
    (s : Size) (p q : List Spot) → count_free s (p ++ q) ≡ count_free s p + count_free s q
count_free-append s [] q = omega arith
count_free-append s (sp ∷ p) q = omega (arith, count_free-append s p q)

count_free-level :
    (a b c : ℕ) (s : Size)
    → a + b < word
    → count_free s (row_from a b (a + b + c) 0) ≡ per_level a b c s
count_free-level a b c Size.small lt =
    count_free-row_from a b c Size.small (a + b + c) 0 lt (omega arith) ∙ omega arith
count_free-level a b c Size.medium lt =
    count_free-row_from a b c Size.medium (a + b + c) 0 lt (omega arith) ∙ omega arith
count_free-level a b c Size.large lt =
    count_free-row_from a b c Size.large (a + b + c) 0 lt (omega arith) ∙ omega arith

count_free-rows :
    (a b c : ℕ) (s : Size) (levels : ℕ)
    → a + b < word
    → count_free s (rows a b (a + b + c) levels) ≡ levels * per_level a b c s
count_free-rows a b c s zero lt = omega arith
count_free-rows a b c s (suc levels) lt =
    count_free-append s (row_from a b (a + b + c) 0) (rows a b (a + b + c) levels)
    ∙ more (per_level a b c s) levels _ _ (count_free-level a b c s lt)
        (count_free-rows a b c s levels lt)
  where
    more : (n levels x y : ℕ) → x ≡ n → y ≡ levels * n → x + y ≡ suc levels * n
    more n levels x y p q = grind arith

length-rows : (a b f levels : ℕ) → length (rows a b f levels) ≡ levels * f
length-rows a b f zero = omega arith
length-rows a b f (suc levels) =
    length-append (row_from a b f 0) (rows a b f levels)
    ∙ more f levels _ _ (length-row_from a b f 0) (length-rows a b f levels)
  where
    more : (f levels x y : ℕ) → x ≡ f → y ≡ levels * f → x + y ≡ suc levels * f
    more f levels x y p q = grind arith

-- The lot that a plan describes.
abbrev fresh : ℕ → ℕ → ℕ → ℕ → Lot
fresh levels a b c = record {
  spots = rows a b (a + b + c) levels;
  levels = levels;
  spots_floor = a + b + c;
  free_count = record { smalls = levels * a; mediums = levels * b; larges = levels * c };
}

fresh-Valid :
    (levels a b c : ℕ) → a + b < word → levels * (a + b + c) < word → ValidLot (fresh levels a b c)
fresh-Valid levels a b c lt small = record {
  has_spots = length-rows a b (a + b + c) levels;
  small_enough = omega (arith, length-rows a b (a + b + c) levels);
  counted = each;
}
  where
    each :
        (s : Size)
        → count_of (fresh levels a b c).free_count s ≡ count_free s (rows a b (a + b + c) levels)
    each Size.small = sym (count_free-rows a b c Size.small levels lt)
    each Size.medium = sym (count_free-rows a b c Size.medium levels lt)
    each Size.large = sym (count_free-rows a b c Size.large levels lt)

level_le : (levels a b c : ℕ) → 0 < levels → a + b + c ≤ levels * (a + b + c)
level_le zero a b c pos = absurd (omega arith)
level_le (suc levels) a b c pos = grind arith

part_le :
    (levels a b c : ℕ)
    → (levels * a ≤ levels * (a + b + c))
      × (levels * b ≤ levels * (a + b + c))
      × (levels * c ≤ levels * (a + b + c))
part_le levels a b c = (grind arith, grind arith, grind arith)

-- With a zeroed block of the size asked for, and a product that does not wrap, `create_lot` returns
-- a valid lot with `levels` times the given number of free spots of each size.
pub create_lot_lem :
    (calloc : ℕ → Option (List Spot)) (levels a b c : ℕ)
    → 0 < levels
    → 0 < a + b + c
    → levels * (a + b + c) < word
    → calloc (levels * (a + b + c)) ≡ some (replicate (levels * (a + b + c)) blank)
    → (lot : Lot) × (create_lot calloc levels a b c ≡ some (some lot))
      × ValidLot lot
      × ((s : Size) → free_spots lot s ≡ levels * per_level a b c s)
unfolding create_lot
create_lot_lem calloc levels a b c pos_levels pos_spots small block = (
  fresh levels a b c,
  rw (
    floor,
    exact (a + b + c) (whole (levels * (a + b + c))),
    ==_ne levels 0 (λ z. omega (arith, z)),
    ==_ne (a + b + c) 0 (λ z. omega (arith, z)),
    block,
    blanks-replicate (a + b + c) levels,
    exact a (part_le levels a b c).0,
    exact b (part_le levels a b c).1,
    exact c (part_le levels a b c).2,
    floor,
    lay_levels_lem levels (fresh levels a b c) a b 0 [] (omega arith),
  ),
  fresh-Valid levels a b c (omega (arith, level_le levels a b c pos_levels)) small,
  each,
)
  where
    whole : (n : ℕ) → n ≤ n
    whole n = omega arith

    exact : (x : ℕ) → levels * x ≤ levels * (a + b + c) → mul64 levels x ≡ levels * x
    exact x le = mod-eq_of_lt (omega (arith, le, small))

    floor : add64 (add64 a b) c ≡ a + b + c
    floor = omega (arith, small, level_le levels a b c pos_levels)

    each : (s : Size) → free_spots (fresh levels a b c) s ≡ levels * per_level a b c s
    each Size.small = refl
    each Size.medium = refl
    each Size.large = refl
