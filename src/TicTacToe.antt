-- ===== src/TicTacToe.antt =====
-- Interview/builds/01-tictactoe/tictactoe.c: an n by n board on which k marks in a row win.
-- `int` coordinates are integers without bound: the board has at most 25 rows, and a walk stops
-- one step outside it. `none` is a failed assert, a read outside `cells`, or fuel at its end.
pub mod Runs
pub mod Win
pub mod Setup
pub mod Game
pub mod Play
mod Tests
use systems_drills.Base.{
  ℕ, zero, suc, ◌+◌, ◌-◌, ◌*◌, ◌%◌, Bool, true, false, ◌&&◌, ◌||◌, not, Option, none, some, List,
  [], ◌∷◌, ltb, leb, ◌==◌, if◌then◌else◌, get_elem?, store?, ◌>>=◌,
}
use systems_drills.Base.Int.{ℤ, pos, negsuc, ◌+ℤ◌, pos_part, neg_part, sub_ℕ, ltb_ℤ}

abbrev pub max_brd : ℤ
max_brd = pos 25

abbrev pub dash : ℕ
dash = b'-'

-- `counter` is how many cells are free; it is only decremented when a free cell is taken.
pub record Board : Type 0 where
  pub n : ℕ
  pub k : ℕ
  pub counter : ℕ
  pub cells : List ℕ

pub record Move : Type 0 where
  pub x : ℤ
  pub y : ℤ

pub data Result : Type 0 where
  unfinished win draw : Result

-- 0 <= v && v < n
abbrev pub in_range : ℕ → ℤ → Bool
in_range n (pos v) = ltb v n
in_range n (negsuc v) = false

-- The index of a cell: `board_cell` and `board_cell_const`, with their assert.
unfoldable pub board_cell : Board → ℤ → ℤ → Option ℕ
board_cell b row col =
    if in_range b.n row && in_range b.n col then some (b.n * pos_part row + pos_part col) else none

-- The loops of `set_board`: the columns left in a row, then the rows left.
unfoldable pub fill_row : ℕ → Board → ℕ → ℕ → Option Board
fill_row zero b i j = some b
fill_row (suc left) b i j = do
  index ← board_cell b (pos i) (pos j)
  cells ← store? b.cells index dash
  fill_row left (record b { cells = cells }) i (j + 1)

unfoldable pub fill : ℕ → Board → ℕ → Option Board
fill zero b i = some b
fill (suc left) b i = do b' ← fill_row b.n b i 0; fill left b' (i + 1)

-- The allocator is a parameter. `some none` is a return of 0.
unfoldable pub set_board : (ℕ → Option (List ℕ)) → ℤ → ℤ → Option (Option Board)
set_board malloc n k =
    if ltb_ℤ n (pos 3) || ltb_ℤ max_brd n || ltb_ℤ k (pos 3) || ltb_ℤ n k
    then some none
    else elim (malloc (pos_part n * pos_part n)) [
      | none ↦ some none
      | some block ↦ do
        b ←
            fill (pos_part n)
              (record {
                n = pos_part n;
                k = pos_part k;
                counter = pos_part n * pos_part n;
                cells = block;
              })
              0
        some (some b)
    ]

-- `true` is a move that was possible.
unfoldable pub make_move : Move → Board → ℕ → Option (Bool × Board)
make_move move b symbol =
    if not (in_range b.n move.x) || not (in_range b.n move.y) then some (false, b) else do
      index ← board_cell b move.x move.y
      c ← get_elem? b.cells index
      if c == dash
          then (do
            cells ← store? b.cells index symbol
            some (true, record b { cells = cells; counter = b.counter - 1 }))
          else some (false, b)

-- The `while` of `count_dir` at (x, y), on fuel.
unfoldable pub walk : ℕ → Board → ℕ → ℤ → ℤ → ℤ → ℤ → ℕ → Option ℕ
walk zero b symbol x y dr dc count = none
walk (suc fuel) b symbol x y dr dc count =
    let more = walk fuel b symbol (x +ℤ dr) (y +ℤ dc) dr dc (count + 1) in
    elim (in_range b.n x && in_range b.n y) [
      | false ↦ some count
      | true ↦ do
        index ← board_cell b x y
        c ← get_elem? b.cells index
        if c == symbol then more else some count
    ]

-- Every step moves a row or a column on, so one round more than the board has is enough.
unfoldable pub count_dir : Board → Move → ℤ → ℤ → Option ℕ
count_dir b move dr dc = do
  index ← board_cell b move.x move.y
  symbol ← get_elem? b.cells index
  walk (suc b.n) b symbol (move.x +ℤ dr) (move.y +ℤ dc) dr dc 0

abbrev pub neg : ℤ → ℤ
neg d = sub_ℕ (neg_part d) (pos_part d)

-- Row, column, diagonal, anti-diagonal.
abbrev pub dirs : List (ℤ × ℤ)
dirs = (pos 0, pos 1) ∷ (pos 1, pos 0) ∷ (pos 1, pos 1) ∷ (pos 1, negsuc 0) ∷ []

unfoldable pub win_along : Board → Move → List (ℤ × ℤ) → Option Bool
win_along b move [] = some false
win_along b move ((dr, dc) ∷ rest) = do
  ahead ← count_dir b move dr dc
  behind ← count_dir b move (neg dr) (neg dc)
  if leb b.k (1 + ahead + behind) then some true else win_along b move rest

unfoldable pub is_win : Board → Move → Option Bool
is_win b move = win_along b move dirs

unfoldable pub check_gamestate : Board → Move → Option Result
check_gamestate b move = do
  won ← is_win b move
  some (if won then Result.win else if b.counter == 0 then Result.draw else Result.unfinished)

-- The line a player types: two numbers, or text that `sscanf` does not read as two numbers.
pub data Input : Type 0 where
  text : Input
  numbers : Move → Input

pub data Ending : Type 0 where
  aborted draw_end : Ending
  wins : ℕ → Ending

abbrev pub num_player : ℕ
num_player = 2

-- `symbols`
abbrev pub symbols : List ℕ
symbols = b'X' ∷ b'O' ∷ []

-- `if (turn >= num_player) turn %= num_player`
abbrev pub current : ℕ → ℕ
current turn = if leb num_player turn then turn % num_player else turn

-- The `switch` on the result; `rest` is what the game goes on to.
abbrev pub after_move : Result → ℕ → Board → Option (Ending × Board) → Option (Ending × Board)
after_move Result.win player b rest = some (Ending.wins player, b)
after_move Result.draw player b rest = some (Ending.draw_end, b)
after_move Result.unfinished player b rest = rest

-- The game loop of `main` on the lines typed, with the board at the end of the game. The outer
-- `none` is a fault in a call.
unfoldable pub play : List Input → ℕ → Board → Option (Ending × Board)
play [] turn b = some (Ending.aborted, b)
play (text ∷ input) turn b = play input (current turn) b
play (numbers move ∷ input) turn b =
    let refused = play input (current turn) b in
    let next = λ (b' : Board). play input (current turn + 1) b' in
    do
      symbol ← get_elem? symbols (current turn)
      (moved, b') ← make_move move b symbol
      if not moved
          then refused
          else do res ← check_gamestate b' move; after_move res (current turn) b' (next b')
