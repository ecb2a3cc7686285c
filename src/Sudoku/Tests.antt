-- ===== src/Sudoku/Tests.antt =====
-- The blocks of `main`, each as what the two validators return, and the theorem at one of them.
use systems_drills.Base.{
  ℕ, ◌≡◌, refl, Bool, true, false, Option, some, List, [], ◌∷◌, map, replicate, set, store?,
}
use systems_drills.Base.Int.{ℤ, pos, negsuc}
use systems_drills.Sudoku.{
  loop, mark, visit, check_row, check_col, check_box, check_all, sudoku_valid_v0, gather, unit_ok,
  row_gatherer, col_gatherer, sqr_gatherer, diag_gatherer, check_unit, check_kinds, sudoku_valid,
}
use systems_drills.Sudoku.Board.{DiagonalsOk}
use systems_drills.Sudoku.Valid.{SizeOk, UnitsOk, Decides, sudoku_valid_lem}

abbrev both : List ℤ → ℕ → ℕ → Option Bool × Option Bool
both board n box = (sudoku_valid_v0 board (pos n) (pos box), sudoku_valid board (pos n) (pos box))

abbrev blank : ℕ → List ℤ
blank n = replicate n (pos 0)

abbrev board_of : List ℕ → List ℤ
board_of cells = map pos cells

abbrev test_one_mark : Option Bool × Option Bool
test_one_mark = both (set (blank 81) 5 (pos 1)) 9 3

abbrev test_blanks : Option Bool × Option Bool
test_blanks =
    both (board_of (0 ∷ 3 ∷ 2 ∷ 4 ∷ 2 ∷ 0 ∷ 1 ∷ 3 ∷ 3 ∷ 0 ∷ 4 ∷ 2 ∷ 0 ∷ 2 ∷ 3 ∷ 1 ∷ [])) 4 2

abbrev test_row_twice : Option Bool × Option Bool
test_row_twice =
    both (board_of (1 ∷ 0 ∷ 1 ∷ 4 ∷ 2 ∷ 0 ∷ 0 ∷ 3 ∷ 3 ∷ 0 ∷ 4 ∷ 2 ∷ 4 ∷ 2 ∷ 3 ∷ 1 ∷ [])) 4 2

abbrev test_col_twice : Option Bool × Option Bool
test_col_twice =
    both (board_of (1 ∷ 0 ∷ 2 ∷ 4 ∷ 3 ∷ 4 ∷ 0 ∷ 0 ∷ 1 ∷ 0 ∷ 4 ∷ 2 ∷ 4 ∷ 2 ∷ 3 ∷ 1 ∷ [])) 4 2

abbrev test_box_twice : Option Bool × Option Bool
test_box_twice =
    both (board_of (1 ∷ 3 ∷ 2 ∷ 4 ∷ 2 ∷ 4 ∷ 0 ∷ 3 ∷ 3 ∷ 0 ∷ 1 ∷ 2 ∷ 4 ∷ 2 ∷ 3 ∷ 1 ∷ [])) 4 2

abbrev test_no_square : Option Bool × Option Bool
test_no_square = both (blank 100) 10 4

abbrev test_diagonal : Option Bool × Option Bool
test_diagonal =
    both (board_of (1 ∷ 3 ∷ 2 ∷ 4 ∷ 2 ∷ 0 ∷ 1 ∷ 3 ∷ 3 ∷ 0 ∷ 4 ∷ 2 ∷ 0 ∷ 2 ∷ 3 ∷ 1 ∷ [])) 4 2

abbrev test_antidiagonal : Option Bool × Option Bool
test_antidiagonal =
    both (board_of (0 ∷ 3 ∷ 2 ∷ 4 ∷ 2 ∷ 0 ∷ 1 ∷ 3 ∷ 3 ∷ 0 ∷ 4 ∷ 2 ∷ 4 ∷ 2 ∷ 3 ∷ 1 ∷ [])) 4 2

abbrev test_too_large : Option Bool × Option Bool
test_too_large = both (blank 10002) 10002 6

abbrev accepted : Option Bool × Option Bool
accepted = (some true, some true)

abbrev refused : Option Bool × Option Bool
refused = (some false, some false)

abbrev only_first : Option Bool × Option Bool
only_first = (some true, some false)

main_results :
    (test_one_mark ≡ accepted)
    × (test_blanks ≡ accepted)
    × (test_row_twice ≡ refused)
    × (test_col_twice ≡ refused)
    × (test_box_twice ≡ refused)
    × (test_no_square ≡ refused)
    × (test_diagonal ≡ only_first)
    × (test_antidiagonal ≡ only_first)
    × (test_too_large ≡ refused)
    × (both (negsuc 0 ∷ []) 1 1 ≡ refused)
unfolding loop mark visit check_row check_col check_box check_all sudoku_valid_v0 gather unit_ok
    row_gatherer col_gatherer sqr_gatherer diag_gatherer check_unit check_kinds sudoku_valid store?
main_results = (refl, refl, refl, refl, refl, refl, refl, refl, refl, refl)

abbrev small_board : List ℤ
small_board = board_of (0 ∷ 3 ∷ 2 ∷ 4 ∷ 2 ∷ 0 ∷ 1 ∷ 3 ∷ 3 ∷ 0 ∷ 4 ∷ 2 ∷ 0 ∷ 2 ∷ 3 ∷ 1 ∷ [])

sudoku_valid_lem_example :
    Decides
      (SizeOk (pos 4) (pos 2) × UnitsOk small_board 4 2)
      (sudoku_valid_v0 small_board (pos 4) (pos 2))
    × Decides
        (SizeOk (pos 4) (pos 2) × (UnitsOk small_board 4 2 × DiagonalsOk small_board 4))
        (sudoku_valid small_board (pos 4) (pos 2))
sudoku_valid_lem_example = sudoku_valid_lem small_board (pos 4) (pos 2) refl
