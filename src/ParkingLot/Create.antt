-- ===== src/ParkingLot/Create.antt =====
-- The layout loops of `create_lot`.
use systems_drills.Base.{
  ℕ, zero, suc, ◌+◌, ◌*◌, ◌≡◌, refl, false, some, List, [], ◌∷◌, ◌++◌, arith, length, length-append,
  append_assoc, get_elem?, set, store?, store?-eq-set, replicate, sym, ap, ◌∙◌,
}
use systems_drills.ParkingLot.{Size, Spot, Lot, size_of, lay_level, lay_levels}

-- A spot as calloc leaves it.
abbrev pub blank : Spot
blank = record { occupied = false; size = Size.small }

abbrev pub laid : ℕ → ℕ → ℕ → Spot
laid a b j = record { occupied = false; size = size_of a b j }

-- The spots of a level from `j` on, and of whole levels.
abbrev pub row_from : ℕ → ℕ → ℕ → ℕ → List Spot
row_from a b zero j = []
row_from a b (suc left) j = laid a b j ∷ row_from a b left (j + 1)

abbrev pub rows : ℕ → ℕ → ℕ → ℕ → List Spot
rows a b f zero = []
rows a b f (suc left) = row_from a b f 0 ++ rows a b f left

abbrev with_spots : Lot → List Spot → Lot
with_spots lot spots = record lot { spots = spots }

get-append :
    (front back : List Spot) (sp : Spot) → get_elem? (front ++ (sp ∷ back)) (length front) ≡ some sp
get-append [] back sp = refl
get-append (q ∷ front) back sp = get-append front back sp

set-append :
    (front back : List Spot) (sp new : Spot)
    → set (front ++ (sp ∷ back)) (length front) new ≡ front ++ (new ∷ back)
set-append [] back sp new = refl
set-append (q ∷ front) back sp new = ap (λ z. q ∷ z) (set-append front back sp new)

store-append :
    (front back : List Spot) (sp new : Spot)
    → store? (front ++ (sp ∷ back)) (length front) new ≡ some (front ++ (new ∷ back))
store-append front back sp new =
    store?-eq-set (front ++ (sp ∷ back)) (length front) new
      (omega (arith, length-append front (sp ∷ back)))
    ∙ ap some (set-append front back sp new)

lay_level-step :
    (left : ℕ) (lot : Lot) (a b i j : ℕ) (front back : List Spot)
    → length front ≡ i * lot.spots_floor + j
    → lay_level (suc left) (with_spots lot (front ++ (blank ∷ back))) a b i j
      ≡ lay_level left (with_spots lot (front ++ (laid a b j ∷ back))) a b i (j + 1)
unfolding lay_level
lay_level-step left lot a b i j front back e =
    rw (sym e, get-append front back blank, store-append front back blank (laid a b j))

lay_level_lem :
    (left : ℕ) (lot : Lot) (a b i j : ℕ) (front back : List Spot)
    → length front ≡ i * lot.spots_floor + j
    → lay_level left (with_spots lot (front ++ (replicate left blank ++ back))) a b i j
      ≡ some (with_spots lot (front ++ (row_from a b left j ++ back)))
unfolding lay_level
lay_level_lem zero lot a b i j front back e = refl
lay_level_lem (suc left) lot a b i j front back e =
    lay_level-step left lot a b i j front (replicate left blank ++ back) e
    ∙ ap (λ z. lay_level left (with_spots lot z) a b i (j + 1))
        (sym (append_assoc front (laid a b j ∷ []) (replicate left blank ++ back)))
    ∙ lay_level_lem left lot a b i (j + 1) (front ++ (laid a b j ∷ [])) back
        (length-append front (laid a b j ∷ []) ∙ omega (arith, e))
    ∙ ap (λ z. some (with_spots lot z))
        (append_assoc front (laid a b j ∷ []) (row_from a b left (j + 1) ++ back))

pub length-row_from : (a b left j : ℕ) → length (row_from a b left j) ≡ left
length-row_from a b zero j = refl
length-row_from a b (suc left) j = ap suc (length-row_from a b left (j + 1))

abbrev pub blanks : ℕ → ℕ → List Spot
blanks f zero = []
blanks f (suc left) = replicate f blank ++ blanks f left

pub blanks-replicate : (f left : ℕ) → replicate (left * f) blank ≡ blanks f left
blanks-replicate f zero = ap (λ n. replicate n blank) (none_left f)
  where
    none_left : (f : ℕ) → 0 * f ≡ 0
    none_left f = omega arith
blanks-replicate f (suc left) =
    ap (λ n. replicate n blank) (one_more left f)
    ∙ replicate-plus f (left * f)
    ∙ ap (λ z. replicate f blank ++ z) (blanks-replicate f left)
  where
    one_more : (left f : ℕ) → suc left * f ≡ f + left * f
    one_more left f = grind arith

    replicate-plus : (m n : ℕ) → replicate (m + n) blank ≡ replicate m blank ++ replicate n blank
    replicate-plus zero n = zero_left (0 + n) n (omega arith)
      where
        zero_left : (k n : ℕ) → k ≡ n → replicate k blank ≡ replicate n blank
        zero_left k n e = ap (λ m. replicate m blank) e
    replicate-plus (suc m) n =
        ap (λ k. replicate k blank) (suc_left m n) ∙ ap (λ z. blank ∷ z) (replicate-plus m n)
      where
        suc_left : (m n : ℕ) → suc m + n ≡ suc (m + n)
        suc_left m n = omega arith

pub lay_levels_lem :
    (left : ℕ) (lot : Lot) (a b i : ℕ) (front : List Spot)
    → length front ≡ i * lot.spots_floor
    → lay_levels left (with_spots lot (front ++ blanks lot.spots_floor left)) a b i
      ≡ some (with_spots lot (front ++ rows a b lot.spots_floor left))
unfolding lay_levels
lay_levels_lem zero lot a b i front e = refl
lay_levels_lem (suc left) lot a b i front e =
    rw (lay_level_lem f lot a b i 0 front (blanks f left) (omega (arith, e))) (
      ap (λ z. lay_levels left (with_spots lot z) a b (i + 1))
        (sym (append_assoc front (row_from a b f 0) (blanks f left)))
      ∙ lay_levels_lem left lot a b (i + 1) (front ++ row_from a b f 0) (
          length-append front (row_from a b f 0)
          ∙ level_end (length front) (length (row_from a b f 0)) i f e (length-row_from a b f 0))
      ∙ ap (λ z. some (with_spots lot z)) (append_assoc front (row_from a b f 0) (rows a b f left)))
  where
    f : ℕ
    f = lot.spots_floor

    level_end : (m n i f : ℕ) → m ≡ i * f → n ≡ f → m + n ≡ (i + 1) * f
    level_end m n i f p q = grind arith
