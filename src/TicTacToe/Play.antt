-- ===== src/TicTacToe/Play.antt =====
-- The result after a move, and the whole game.
use systems_drills.Base.{
  ℕ, zero, suc, ◌+◌, ◌<◌, ◌≡◌, ◌≢◌, inl, inr, refl, true, false, Option, some, List, [], ◌∷◌, arith,
  ◌==◌, get_elem?, ◌∙◌, Bool-cases, ==_iff, ==_ne, sym,
}
use systems_drills.TicTacToe.{
  Board, Move, Result, Input, Ending, dash, make_move, is_win, check_gamestate, play, current,
  symbols, after_move,
}
use systems_drills.TicTacToe.Runs.{mark}
use systems_drills.TicTacToe.Win.{InLine, is_win_iff}
use systems_drills.TicTacToe.Game.{ValidBoard, count_free, make_move_lem}

-- What a result says of the board and the last move.
abbrev pub Means : Result → Board → Move → ℕ → Type 0
Means Result.win b m s = InLine b s m
Means Result.draw b m s = ¬ InLine b s m × (count_free b.cells ≡ 0)
Means Result.unfinished b m s = ¬ InLine b s m × (0 < count_free b.cells)

check_gamestate-won :
    (b : Board) (m : Move) → is_win b m ≡ some true → check_gamestate b m ≡ some Result.win
unfolding check_gamestate
check_gamestate-won b m e = rw e

check_gamestate-full :
    (b : Board) (m : Move)
    → is_win b m ≡ some false
    → b.counter ≡ 0
    → check_gamestate b m ≡ some Result.draw
unfolding check_gamestate
check_gamestate-full b m e z = rw (e, z)

check_gamestate-open :
    (b : Board) (m : Move)
    → is_win b m ≡ some false
    → b.counter ≢ 0
    → check_gamestate b m ≡ some Result.unfinished
unfolding check_gamestate
check_gamestate-open b m e z = rw (e, ==_ne b.counter 0 z)

-- After a mark on a valid board, the result is a win exactly if `k` marks in a row go through the
-- move; else it is a draw if no cell is free, and unfinished if one is.
pub check_gamestate_lem :
    (b : Board) (m : Move) (s : ℕ)
    → ValidBoard b
    → mark b m.x m.y ≡ some s
    → (r : Result) × (check_gamestate b m ≡ some r) × Means r b m s
check_gamestate_lem b m s v e =
    let (w, run, lines) = is_win_iff b m s v.has_cells v.some_win e in
    elim (Bool-cases w) [
      | inl yes_w ↦ (Result.win, check_gamestate-won b m (rw yes_w at run), lines.0 yes_w)
      | inr no_w ↦
          let lost = rw no_w at run in
          let no_line : ¬ InLine b s m = λ line. cc (no_w, lines.1 line) in
          elim (Bool-cases (b.counter == 0)) [
            | inl z ↦
                let zero_left = (==_iff b.counter 0).0 z in
                (
                  Result.draw,
                  check_gamestate-full b m lost zero_left,
                  (no_line, sym v.counted ∙ zero_left),
                )
            | inr z ↦
                let some_left : b.counter ≢ 0 = λ q. cc (z, (==_iff b.counter 0).1 q) in
                (
                  Result.unfinished,
                  check_gamestate-open b m lost some_left,
                  (no_line, omega (arith, v.counted, some_left)),
                )
          ]
    ]

-- What an ending says of the last board.
abbrev pub EndsAs : Ending → Board → Type 0
EndsAs Ending.aborted b = Unit
EndsAs Ending.draw_end b = count_free b.cells ≡ 0
EndsAs (Ending.wins player) b =
    (m : Move) × (s : ℕ) × (get_elem? symbols player ≡ some s)
    × (mark b m.x m.y ≡ some s)
    × InLine b s m

abbrev GameEnds : Option (Ending × Board) → Type 0
GameEnds o =
    (ending : Ending) × (b' : Board) × (o ≡ some (ending, b')) × ValidBoard b' × EndsAs ending b'

current-symbol : (turn : ℕ) → (s : ℕ) × (get_elem? symbols (current turn) ≡ some s) × (s ≢ dash)
current-symbol turn = go (current turn) (ground arith)
  where
    go : (t : ℕ) → t < 2 → (s : ℕ) × (get_elem? symbols t ≡ some s) × (s ≢ dash)
    go zero lt = (b'X', refl, λ e. omega arith)
    go (suc zero) lt = (b'O', refl, λ e. omega arith)
    go (suc (suc t)) lt = absurd (omega arith)

play-refused :
    (m : Move) (input : List Input) (turn s : ℕ) (b b' : Board)
    → get_elem? symbols (current turn) ≡ some s
    → make_move m b s ≡ some (false, b')
    → play (Input.numbers m ∷ input) turn b ≡ play input (current turn) b
unfolding play
play-refused m input turn s b b' e f = rw (e, f)

play-made :
    (m : Move) (input : List Input) (turn s : ℕ) (b b' : Board) (r : Result)
    → get_elem? symbols (current turn) ≡ some s
    → make_move m b s ≡ some (true, b')
    → check_gamestate b' m ≡ some r
    → play (Input.numbers m ∷ input) turn b
      ≡ after_move r (current turn) b' (play input (current turn + 1) b')
unfolding play
play-made m input turn s b b' r e f g = rw (e, f, g)

GameEnds-eq : (o p : Option (Ending × Board)) → o ≡ p → GameEnds p → GameEnds o
GameEnds-eq o p e (ending, b', run, v, ends) = (ending, b', e ∙ run, v, ends)

after_move-ends :
    (r : Result) (b : Board) (m : Move) (turn s : ℕ) (rest : Option (Ending × Board))
    → get_elem? symbols turn ≡ some s
    → mark b m.x m.y ≡ some s
    → ValidBoard b
    → Means r b m s
    → GameEnds rest
    → GameEnds (after_move r turn b rest)
after_move-ends Result.win b m turn s rest e on v line ends =
    (Ending.wins turn, b, refl, v, (m, s, e, on, line))
after_move-ends Result.draw b m turn s rest e on v full ends = (Ending.draw_end, b, refl, v, full.1)
after_move-ends Result.unfinished b m turn s rest e on v open_ ends = ends

-- From a valid board, whatever lines are typed, the game runs without a failed assert or a read
-- outside the cells and keeps the board valid. If a player wins, `k` of that player's marks in a
-- row stand on the last board; if it is a draw, no cell of it is free.
pub play_lem :
    (input : List Input) (turn : ℕ) (b : Board)
    → ValidBoard b
    → (ending : Ending) × (b' : Board) × (play input turn b ≡ some (ending, b'))
      × ValidBoard b'
      × EndsAs ending b'
unfolding play
play_lem [] turn b v = (Ending.aborted, b, refl, v, tt)
play_lem (Input.text ∷ input) turn b v = play_lem input (current turn) b v
play_lem (Input.numbers m ∷ input) turn b v =
    let (s, e, ne) = current-symbol turn in
    let (moved, b', run, v', what) = make_move_lem m b s v ne in
    elim what [
      | inr (off, same, taken) ↦
          GameEnds-eq _ _ (play-refused m input turn s b b' e (rw off at run))
            (play_lem input (current turn) b v)
      | inl (on, placed) ↦
          let (r, check, means) = check_gamestate_lem b' m s v' placed.now in
          GameEnds-eq _ _ (play-made m input turn s b b' r e (rw on at run) check) (
            after_move-ends r b' m (current turn) s _ e placed.now v' means
              (play_lem input (current turn + 1) b' v'))
    ]
