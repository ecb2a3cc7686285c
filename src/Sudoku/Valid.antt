-- ===== src/Sudoku/Valid.antt =====
-- What the two validators return, for every board.
use native.Mathlib.Nat.{le-mul_of_pos_right}
use systems_drills.Base.{
  ℕ, zero, suc, ◌+◌, ◌-◌, ◌*◌, ◌≤◌, ◌<◌, ◌≡◌, ◌≢◌, ◌⊎◌, inl, inr, refl, sym, ap, subst, Bool, drop,
  true, false, [], ◌∷◌, Option, some, List, arith, length, get_or, if◌then◌else◌, dec_le,
  ℕ_discrete, ==_iff, ==_ne, lt→ltb, le→ltb,
}
use systems_drills.Base.Int.{ℤ, pos, negsuc, pos_part, neg_part}
use systems_drills.Sudoku.{
  max_n, next, loop, cleared, finish, check_row, check_col, check_box, check_all, bad_size,
  sudoku_valid_v0, row_gatherer, col_gatherer, diag_gatherer, check_unit, check_kinds, kinds,
  GatherKind, sudoku_valid,
}
use systems_drills.Sudoku.Loop.{Verdict, Verdict-iff, Verdict-next, loop_all}
use systems_drills.Sudoku.Unit.{UnitOk, UnitOk-cong}
use systems_drills.Sudoku.Board.{
  cell, cell_lt, RowOk, ColOk, DiagonalsOk, visits-Verdict, check_unit-Verdict,
}
use systems_drills.Sudoku.Boxes.{AllBoxes, boxes-Verdict, sqr-Verdict}

-- Every row, every column and every box has each number at most once, blanks apart.
abbrev pub UnitsOk : List ℤ → ℕ → ℕ → Type 0
UnitsOk board n box =
    ((i : ℕ) → i < n → RowOk board n i) × ((i : ℕ) → i < n → ColOk board n i) × AllBoxes board n box

-- The sizes that the validators accept.
abbrev pub SizeOk : ℤ → ℤ → Type 0
SizeOk n box =
    (neg_part n ≡ 0)
    × (neg_part box ≡ 0)
    × (pos_part n ≤ max_n)
    × (0 < pos_part box)
    × (pos_part box * pos_part box ≡ pos_part n)

-- The Boolean is there, and it decides `P`.
abbrev pub Decides : Type 0 → Option Bool → Type 0
Decides P r = (r ≡ some true) × P ⊎ (r ≡ some false) × ¬ P

-- A diagonal by its number in the loop.
abbrev DiagonalOk : List ℤ → ℕ → ℕ → Type 0
DiagonalOk board n zero = UnitOk n n (λ i. cell board n i i)
DiagonalOk board n (suc u) = UnitOk n n (λ i. cell board n i (n - 1 - i))

-- After the test of the sizes.
with_size {ℓ} :
    {S : Type ℓ} (Size P : Type 0)
    → Size
    → (bad : Bool) → bad ≡ false
    → (r : Option (Option S)) (s : S) → Verdict P s r
    → Decides (Size × P) (if bad then some false else finish r)
with_size Size P ok bad e r s (inl (q, p)) = inl (rw (e, q) refl, (ok, p))
with_size Size P ok bad e r s (inr (q, np)) = inr (rw (e, q) refl, λ both. np both.1)

module _ (board : List ℤ) (n box : ℕ) (fits : n ≤ max_n) (square : box * box ≡ n)
    (size : length board ≡ n * n) where
  inside : (r c : ℕ) → r < n → c < n → r * n + c < length board
  inside r c r_lt c_lt = subst (λ m. r * n + c < m) (sym size) (cell_lt n r c r_lt c_lt)

  check_all-Verdict : Verdict (UnitsOk board n box) cleared (check_all board n box)
  unfolding check_all check_row check_col
  check_all-Verdict =
      Verdict-iff
        (((i : ℕ) → i < n → RowOk board n i)
          × (((i : ℕ) → i < n → ColOk board n i) × AllBoxes board n box))
        (UnitsOk board n box) cleared (check_all board n box) (λ (r, (c, b)). (r, c, b))
        (λ (r, c, b). (r, (c, b)))
        (Verdict-next ((i : ℕ) → i < n → RowOk board n i)
          (((i : ℕ) → i < n → ColOk board n i) × AllBoxes board n box) cleared cleared
          (loop (check_row board n) n 0 cleared)
          (λ seen.
            next (loop (check_col board n) n 0 seen)
              (loop (λ i. loop (check_box board n box i) box 0) box 0))
          (loop_all (λ i. RowOk board n i) (check_row board n) cleared n
            (λ i lt. visits-Verdict board n (λ j. i * n + j) fits (λ j j_lt. inside i j lt j_lt)))
          (Verdict-next ((i : ℕ) → i < n → ColOk board n i) (AllBoxes board n box) cleared cleared
            (loop (check_col board n) n 0 cleared)
            (loop (λ i. loop (check_box board n box i) box 0) box 0)
            (loop_all (λ i. ColOk board n i) (check_col board n) cleared n
              (λ i lt. visits-Verdict board n (λ j. j * n + i) fits (λ j j_lt. inside j i j_lt lt)))
            (boxes-Verdict board n box fits square size)))

  diag_unit :
      (u : ℕ)
      → u < 2
      → Verdict
          (DiagonalOk board n u)
          tt
          (check_unit board n box (record { g = diag_gatherer; n = 2 }) u tt)
  unfolding diag_gatherer
  diag_unit zero lt =
      check_unit-Verdict board n box (record { g = diag_gatherer; n = 2 }) 0 (λ i. i * n + i) fits
        refl (λ i lt. inside i i lt lt)
  diag_unit (suc zero) lt =
      Verdict-iff (UnitOk n n (λ i. get_or board (i * n + n - 1 - i) (pos 0)))
        (DiagonalOk board n 1) tt
        (check_unit board n box (record { g = diag_gatherer; n = 2 }) 1 tt)
        (UnitOk-cong n n (λ i. get_or board (i * n + n - 1 - i) (pos 0))
          (λ i. cell board n i (n - 1 - i)) (λ i lt. ap (λ q. get_or board q (pos 0)) (same i lt)))
        (UnitOk-cong n n (λ i. cell board n i (n - 1 - i))
          (λ i. get_or board (i * n + n - 1 - i) (pos 0))
          (λ i lt. ap (λ q. get_or board q (pos 0)) (sym (same i lt))))
        (check_unit-Verdict board n box (record { g = diag_gatherer; n = 2 }) 1
          (λ i. i * n + n - 1 - i) fits refl
          (λ i lt.
            subst (λ q. q < length board) (sym (same i lt))
              (inside i (n - 1 - i) lt (omega arith))))
    where
      same : (i : ℕ) → i < n → i * n + n - 1 - i ≡ i * n + (n - 1 - i)
      same i lt = omega arith
  diag_unit (suc (suc u)) lt = absurd (omega arith)

  diag-Verdict :
      Verdict
        (DiagonalsOk board n)
        tt
        (loop (check_unit board n box (record { g = diag_gatherer; n = 2 })) 2 0 tt)
  diag-Verdict =
      Verdict-iff ((u : ℕ) → u < 2 → DiagonalOk board n u) (DiagonalsOk board n) tt
        (loop (check_unit board n box (record { g = diag_gatherer; n = 2 })) 2 0 tt)
        (λ all. (all 0 (omega arith), all 1 (omega arith))) both
        (loop_all (λ u. DiagonalOk board n u)
          (check_unit board n box (record { g = diag_gatherer; n = 2 })) tt 2 diag_unit)
    where
      both : DiagonalsOk board n → (u : ℕ) → u < 2 → DiagonalOk board n u
      both ok zero lt = ok.0
      both ok (suc zero) lt = ok.1
      both ok (suc (suc u)) lt = absurd (omega arith)

  kind-Verdict :
      (P Q : Type 0) (kind : GatherKind) (kinds : List GatherKind)
      → Verdict P tt (loop (check_unit board n box kind) kind.n 0 tt)
      → Verdict Q tt (check_kinds board n box kinds)
      → Verdict (P × Q) tt (check_kinds board n box (kind ∷ kinds))
  unfolding check_kinds
  kind-Verdict P Q kind kinds =
      Verdict-next P Q tt tt (loop (check_unit board n box kind) kind.n 0 tt)
        (λ _. check_kinds board n box kinds)

  row-Verdict :
      Verdict
        ((i : ℕ) → i < n → RowOk board n i)
        tt
        (loop (check_unit board n box (record { g = row_gatherer; n = n })) n 0 tt)
  unfolding row_gatherer
  row-Verdict =
      loop_all (λ i. RowOk board n i) (check_unit board n box (record { g = row_gatherer; n = n }))
        tt n
        (λ u lt.
          check_unit-Verdict board n box (record { g = row_gatherer; n = n }) u (λ i. u * n + i)
            fits refl (λ i i_lt. inside u i lt i_lt))

  col-Verdict :
      Verdict
        ((i : ℕ) → i < n → ColOk board n i)
        tt
        (loop (check_unit board n box (record { g = col_gatherer; n = n })) n 0 tt)
  unfolding col_gatherer
  col-Verdict =
      loop_all (λ i. ColOk board n i) (check_unit board n box (record { g = col_gatherer; n = n }))
        tt n
        (λ u lt.
          check_unit-Verdict board n box (record { g = col_gatherer; n = n }) u (λ i. i * n + u)
            fits refl (λ i i_lt. inside i u i_lt lt))

  check_kinds-Verdict :
      Verdict (UnitsOk board n box × DiagonalsOk board n) tt (check_kinds board n box (kinds n))
  unfolding check_kinds
  check_kinds-Verdict =
      let Rows : Type 0 = (i : ℕ) → i < n → RowOk board n i in
      let Cols : Type 0 = (i : ℕ) → i < n → ColOk board n i in
      let Boxes : Type 0 = AllBoxes board n box in
      let Diagonals : Type 0 = DiagonalsOk board n in
      Verdict-iff (Rows × (Cols × (Boxes × (Diagonals × Unit {0}))))
        (UnitsOk board n box × DiagonalsOk board n) tt (check_kinds board n box (kinds n))
        (λ (r, (c, (b, (d, e)))). ((r, c, b), d)) (λ ((r, c, b), d). (r, (c, (b, (d, tt)))))
        (kind-Verdict Rows (Cols × (Boxes × (Diagonals × Unit {0}))) _ (drop 1 (kinds n))
          row-Verdict
          (kind-Verdict Cols (Boxes × (Diagonals × Unit {0})) _ (drop 2 (kinds n)) col-Verdict (
            kind-Verdict Boxes (Diagonals × Unit {0}) _ (drop 3 (kinds n))
              (sqr-Verdict board n box fits square size)
              (kind-Verdict Diagonals (Unit {0}) _ [] diag-Verdict (inl (refl, tt))))))

bad_size_cases :
    (n box : ℤ) → (bad_size n box ≡ false) × SizeOk n box ⊎ (bad_size n box ≡ true) × ¬ SizeOk n box
bad_size_cases (negsuc n) box = inr (refl, λ ok. absurd (omega (arith, ok.0)))
bad_size_cases (pos n) (negsuc box) = inr (refl, λ ok. absurd (omega (arith, ok.1)))
bad_size_cases (pos n) (pos box) = elim (dec_le n max_n) [
  | no big ↦ inr (rw (lt→ltb max_n n (omega arith)) refl, λ ok. big ok.2)
  | yes fits ↦ elim (ℕ_discrete box 0) [
    | yes z ↦
        inr
          (rw (le→ltb max_n n fits, (==_iff box 0).1 z) refl, λ ok. absurd (omega (arith, ok.3, z)))
    | no nz ↦ elim (ℕ_discrete (box * box) n) [
      | no ne ↦ inr (not_square box n fits nz ne, λ ok. ne ok.4)
      | yes square ↦
          let le : box ≤ n =
            subst (λ m. box ≤ m) square (le-mul_of_pos_right box (omega (arith, nz))) in
          inl (
            rw
                (
                  le→ltb max_n n fits,
                  ==_ne box 0 nz,
                  le→ltb n box le,
                  (==_iff (box * box) n).1 square,
                )
                refl,
            (refl, refl, fits, omega (arith, nz), square),
          )
    ]
  ]
]
  where
    not_square :
        (box n : ℕ) → n ≤ max_n → box ≢ 0 → box * box ≢ n → bad_size (pos n) (pos box) ≡ true
    not_square box n fits nz ne = elim (dec_le box n) [
      | yes le ↦
          rw (le→ltb max_n n fits, ==_ne box 0 nz, le→ltb n box le, ==_ne (box * box) n ne) refl
      | no above ↦ rw (le→ltb max_n n fits, ==_ne box 0 nz, lt→ltb n box (omega arith)) refl
    ]

-- On a board of n * n cells both validators return, whatever the sizes and the cells are.
-- `sudoku_valid_v0` returns true just if the sizes are fit (n at most MAX_N and the square of a
-- positive box) and no row, column or box has a value out of range or a number twice;
-- `sudoku_valid` returns true just if moreover neither diagonal has.
pub sudoku_valid_lem :
    (board : List ℤ) (n box : ℤ)
    → length board ≡ pos_part n * pos_part n
    → Decides
        (SizeOk n box × UnitsOk board (pos_part n) (pos_part box))
        (sudoku_valid_v0 board n box)
      × Decides
          (SizeOk n box
            × (UnitsOk board (pos_part n) (pos_part box) × DiagonalsOk board (pos_part n)))
          (sudoku_valid board n box)
unfolding sudoku_valid_v0 sudoku_valid
sudoku_valid_lem board n box size = elim (bad_size_cases n box) [
  | inr (e, bad) ↦ (inr (rw e refl, λ ok. bad ok.0), inr (rw e refl, λ ok. bad ok.0))
  | inl (e, ok) ↦
      let (_, _, fits, _, square) = ok in
      (
        with_size (SizeOk n box) (UnitsOk board (pos_part n) (pos_part box)) ok (bad_size n box) e
            (check_all board (pos_part n) (pos_part box)) cleared
            (check_all-Verdict board (pos_part n) (pos_part box) fits square size),
        with_size (SizeOk n box)
            (UnitsOk board (pos_part n) (pos_part box) × DiagonalsOk board (pos_part n)) ok
            (bad_size n box) e (check_kinds board (pos_part n) (pos_part box) (kinds (pos_part n)))
            tt (check_kinds-Verdict board (pos_part n) (pos_part box) fits square size),
      )
]
