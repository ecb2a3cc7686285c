-- ===== src/TicTacToe/Tests.antt =====
-- `test_tictactoe`, block by block, and the theorems at concrete boards.
use systems_drills.Base.{
  ℕ, ◌≡◌, ◌≢◌, ◌⊎◌, refl, Bool, true, false, Option, none, some, List, [], ◌∷◌, arith, replicate,
  store?, ◌↔◌, if◌then◌else◌, ◌>>=◌,
}
use systems_drills.Base.Int.{ℤ, pos, ◌+ℤ◌}
use systems_drills.TicTacToe.{
  Board, Move, Result, Input, Ending, dash, set_board, fill, fill_row, board_cell, make_move,
  is_win, win_along, count_dir, walk, check_gamestate, play,
}
use systems_drills.TicTacToe.Runs.{mark}
use systems_drills.TicTacToe.Win.{InLine, is_win_iff}
use systems_drills.TicTacToe.Setup.{FreshBoard, set_board_lem}
use systems_drills.TicTacToe.Game.{ValidBoard, Placed, make_move_lem}
use systems_drills.TicTacToe.Play.{EndsAs, play_lem, Means, check_gamestate_lem}

abbrev malloc : ℕ → Option (List ℕ)
malloc size = some (replicate size 0)

abbrev move : ℕ → ℕ → Move
move row col = record { x = pos row; y = pos col }

-- The test helper `place`, with its assert.
unfoldable place : Board → ℕ → ℕ → ℕ → Option Board
place b row col symbol = do
  (ok, b') ← make_move (move row col) b symbol
  if ok then some b' else none

-- The marks of a block in turn, each of which must be possible, and the result after the last.
unfoldable marks : Board → List (ℕ × ℕ × ℕ) → Move → Option (Board × Move)
marks b [] last = some (b, last)
marks b ((row, col, symbol) ∷ more) last = do
  b' ← place b row col symbol
  marks b' more (move row col)

unfoldable block : ℤ → ℤ → List (ℕ × ℕ × ℕ) → Option Result
block n k moves = do
  board ← set_board malloc n k
  b ← board
  (b', last) ← marks b moves (move 0 0)
  check_gamestate b' last

abbrev x : ℕ → ℕ → ℕ × ℕ × ℕ
x row col = (row, col, b'X')

abbrev o : ℕ → ℕ → ℕ × ℕ × ℕ
o row col = (row, col, b'O')

abbrev test_row : Option Result
test_row = block (pos 3) (pos 3) (x 0 0 ∷ x 0 1 ∷ x 0 2 ∷ [])

abbrev test_col : Option Result
test_col = block (pos 3) (pos 3) (x 0 0 ∷ x 1 0 ∷ x 2 0 ∷ [])

abbrev test_diag : Option Result
test_diag = block (pos 3) (pos 3) (x 0 0 ∷ x 1 1 ∷ x 2 2 ∷ [])

abbrev test_antidiag : Option Result
test_antidiag = block (pos 3) (pos 3) (x 0 2 ∷ x 1 1 ∷ x 2 0 ∷ [])

abbrev test_draw : Option Result
test_draw =
    block (pos 3) (pos 3)
      (o 0 1 ∷ x 0 2 ∷ o 1 0 ∷ x 1 1 ∷ x 1 2 ∷ o 2 0 ∷ x 2 1 ∷ o 2 2 ∷ x 0 0 ∷ [])

abbrev test_unfinished : Option Result
test_unfinished = block (pos 3) (pos 3) (x 0 0 ∷ o 0 2 ∷ x 1 1 ∷ [])

abbrev test_blocked_row : Option Result
test_blocked_row = block (pos 3) (pos 3) (x 0 1 ∷ o 0 2 ∷ x 0 0 ∷ [])

abbrev test_near_miss : Option Result
test_near_miss = block (pos 4) (pos 4) (x 0 0 ∷ o 0 1 ∷ x 1 1 ∷ o 0 2 ∷ x 2 1 ∷ o 3 3 ∷ x 2 2 ∷ [])

abbrev test_five : Option Result
test_five =
    block (pos 5) (pos 5)
      (x 0 0 ∷ o 0 1 ∷ x 1 1 ∷ o 0 2 ∷ x 2 2 ∷ o 0 3 ∷ x 3 3 ∷ o 0 4 ∷ x 4 4 ∷ [])

abbrev test_short_diag : Option Result
test_short_diag = block (pos 5) (pos 3) (x 1 0 ∷ x 2 1 ∷ x 3 2 ∷ [])

abbrev test_two_marks : Option Result
test_two_marks = block (pos 5) (pos 3) (x 0 0 ∷ x 0 1 ∷ [])

abbrev test_gap : Option Result
test_gap = block (pos 5) (pos 4) (x 2 0 ∷ x 2 1 ∷ x 2 3 ∷ x 2 4 ∷ [])

abbrev test_gap_filled : Option Result
test_gap_filled = block (pos 5) (pos 4) (x 2 0 ∷ x 2 1 ∷ x 2 3 ∷ x 2 4 ∷ x 2 2 ∷ [])

abbrev test_edge : Option Result
test_edge = block (pos 5) (pos 3) (x 0 4 ∷ x 1 1 ∷ x 1 0 ∷ [])

abbrev test_refused : Option (Option Board) × Option (Option Board)
test_refused = (set_board malloc (pos 3) (pos 4), set_board malloc (pos 5) (pos 2))

small_blocks :
    (test_row ≡ some Result.win)
    × (test_col ≡ some Result.win)
    × (test_diag ≡ some Result.win)
    × (test_antidiag ≡ some Result.win)
    × (test_draw ≡ some Result.draw)
    × (test_unfinished ≡ some Result.unfinished)
    × (test_blocked_row ≡ some Result.unfinished)
unfolding block set_board fill fill_row board_cell store? marks place make_move check_gamestate
    is_win win_along count_dir walk ◌+ℤ◌
small_blocks = (refl, refl, refl, refl, refl, refl, refl)

large_blocks :
    (test_near_miss ≡ some Result.unfinished)
    × (test_five ≡ some Result.win)
    × (test_short_diag ≡ some Result.win)
    × (test_two_marks ≡ some Result.unfinished)
    × (test_gap ≡ some Result.unfinished)
    × (test_gap_filled ≡ some Result.win)
    × (test_edge ≡ some Result.unfinished)
    × (test_refused ≡ (some none, some none))
unfolding block set_board fill fill_row board_cell store? marks place make_move check_gamestate
    is_win win_along count_dir walk ◌+ℤ◌
large_blocks = (refl, refl, refl, refl, refl, refl, refl, refl)

abbrev row_won : Board
row_won = record { n = 3; k = 3; counter = 6; cells = b'X' ∷ b'X' ∷ b'X' ∷ replicate 6 dash }

is_win_iff_example :
    (w : Bool) × (is_win row_won (move 0 2) ≡ some w)
    × ((w ≡ true) ↔ InLine row_won b'X' (move 0 2))
unfolding mark
is_win_iff_example = is_win_iff row_won (move 0 2) b'X' refl (omega arith) refl

set_board_lem_example :
    (b : Board) × (set_board malloc (pos 4) (pos 3) ≡ some (some b)) × FreshBoard b 4 3
set_board_lem_example =
    set_board_lem malloc (pos 4) (pos 3) (replicate 16 0) (omega arith, omega arith, omega arith)
      refl refl

row_won-ValidBoard : ValidBoard row_won
row_won-ValidBoard = record { has_cells = refl; some_win = omega arith; counted = refl }

make_move_lem_example :
    (moved : Bool) × (b' : Board) × (make_move (move 2 2) row_won b'O' ≡ some (moved, b'))
    × ValidBoard b'
    × ((moved ≡ true) × Placed row_won b' (move 2 2) b'O'
        ⊎ (moved ≡ false) × (b' ≡ row_won) × (mark row_won (pos 2) (pos 2) ≢ some dash))
make_move_lem_example = make_move_lem (move 2 2) row_won b'O' row_won-ValidBoard (λ e. omega arith)

abbrev free_board : Board
free_board = record { n = 3; k = 3; counter = 9; cells = replicate 9 dash }

free_board-ValidBoard : ValidBoard free_board
free_board-ValidBoard = record { has_cells = refl; some_win = omega arith; counted = refl }

abbrev typed : List Input
typed =
    Input.numbers (move 0 0)
    ∷ Input.text
    ∷ Input.numbers (move 1 0)
    ∷ Input.numbers (move 0 1)
    ∷ Input.numbers (move 0 1)
    ∷ Input.numbers (move 1 1)
    ∷ Input.numbers (move 0 2)
    ∷ []

play_lem_example :
    (ending : Ending) × (b' : Board) × (play typed 0 free_board ≡ some (ending, b'))
    × ValidBoard b'
    × EndsAs ending b'
play_lem_example = play_lem typed 0 free_board free_board-ValidBoard

check_gamestate_lem_example :
    (r : Result) × (check_gamestate row_won (move 0 1) ≡ some r) × Means r row_won (move 0 1) b'X'
unfolding mark
check_gamestate_lem_example = check_gamestate_lem row_won (move 0 1) b'X' row_won-ValidBoard refl
