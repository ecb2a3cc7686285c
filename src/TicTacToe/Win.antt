-- ===== src/TicTacToe/Win.antt =====
-- Lines of `k` equal marks through a move, and `is_win`.
use systems_drills.Base.{
  ℕ, zero, suc, ◌+◌, ◌-◌, ◌≤◌, ◌<◌, ◌≡◌, ◌↔◌, ◌⊎◌, inl, inr, refl, Bool, true, false, some, min,
  List, [], ◌∷◌, arith, leb, leb→le, if◌then◌else◌, Bool-cases, dec_lt, ap, ◌∙◌,
}
use systems_drills.Base.Int.{ℤ, pos, negsuc, ◌+ℤ◌}
use systems_drills.TicTacToe.{
  Board, Move, board_cell, walk, count_dir, neg, dirs, win_along, is_win,
}
use systems_drills.TicTacToe.Runs.{HasCells, mark, steps, RunOf, Moves, walk_counts, stopped}

-- `back` cells behind (x, y), (x, y) and `fwd` cells ahead of it, `k` in all, hold the symbol.
pub record LineOf (b : Board) (s : ℕ) (x y dr dc : ℤ) : Type 0 where
  pub back : ℕ
  pub fwd : ℕ
  pub size : back + fwd + 1 ≡ b.k
  pub ahead : (i : ℕ) → i ≤ fwd → mark b (steps x dr i) (steps y dc i) ≡ some s
  pub behind : (i : ℕ) → i ≤ back → mark b (steps x (neg dr) i) (steps y (neg dc) i) ≡ some s

-- The four lines through a cell, and the step in each.
pub data Direction : Type 0 where
  row column diagonal antidiagonal : Direction

abbrev pub row_step : Direction → ℤ
row_step row = pos 0
row_step column = pos 1
row_step diagonal = pos 1
row_step antidiagonal = pos 1

abbrev pub column_step : Direction → ℤ
column_step row = pos 1
column_step column = pos 0
column_step diagonal = pos 1
column_step antidiagonal = negsuc 0

-- `k` equal marks in a row, column or diagonal go through the move.
abbrev pub InLine : Board → ℕ → Move → Type 0
InLine b s m = (d : Direction) × LineOf b s m.x m.y (row_step d) (column_step d)

-- One of the directions of a list has such a line.
abbrev AnyLine : Board → ℕ → Move → List (ℤ × ℤ) → Type 0
AnyLine b s m [] = ⊥
AnyLine b s m ((dr, dc) ∷ ds) = LineOf b s m.x m.y dr dc ⊎ AnyLine b s m ds

count_dir-walk :
    (b : Board) (m : Move) (dr dc : ℤ) (s : ℕ)
    → mark b m.x m.y ≡ some s
    → count_dir b m dr dc ≡ walk (suc b.n) b s (m.x +ℤ dr) (m.y +ℤ dc) dr dc 0
unfolding count_dir mark board_cell
count_dir-walk b m dr dc s e = ground arith

count_dir_lem :
    (b : Board) (m : Move) (dr dc : ℤ) (s : ℕ)
    → HasCells b
    → mark b m.x m.y ≡ some s
    → Moves dr dc
    → (r : ℕ) × (count_dir b m dr dc ≡ some r) × RunOf b s (m.x +ℤ dr) (m.y +ℤ dc) dr dc r
count_dir_lem b m dr dc s h e moves =
    let (bad, lt, stop) = stopped b s (m.x +ℤ dr) (m.y +ℤ dc) dr dc moves in
    let (r, w, run) = walk_counts (suc b.n) b s (m.x +ℤ dr) (m.y +ℤ dc) dr dc 0 bad h lt stop in
    (r, count_dir-walk b m dr dc s e ∙ w ∙ ap some (omega arith), run)

run_marks :
    (b : Board) (s : ℕ) (x y dr dc : ℤ) (r : ℕ)
    → mark b x y ≡ some s
    → RunOf b s (x +ℤ dr) (y +ℤ dc) dr dc r
    → (i : ℕ) → i ≤ r
    → mark b (steps x dr i) (steps y dc i) ≡ some s
unfolding steps
run_marks b s x y dr dc r e run zero le = e
run_marks b s x y dr dc r e run (suc i) le = run.inside i (omega arith)

marks_run :
    (b : Board) (s : ℕ) (x y dr dc : ℤ) (r l : ℕ)
    → RunOf b s (x +ℤ dr) (y +ℤ dc) dr dc r
    → ((i : ℕ) → i ≤ l → mark b (steps x dr i) (steps y dc i) ≡ some s)
    → l ≤ r
unfolding steps
marks_run b s x y dr dc r l run all = elim (dec_lt r l) [
  | yes lt ↦ absurd (run.ends (all (suc r) (omega arith)))
  | no ge ↦ omega arith
]

-- The two runs of a direction reach `k` cells exactly if there is a line.
LineOf-iff :
    (b : Board) (s : ℕ) (x y dr dc : ℤ) (fwd back : ℕ)
    → 0 < b.k
    → mark b x y ≡ some s
    → RunOf b s (x +ℤ dr) (y +ℤ dc) dr dc fwd
    → RunOf b s (x +ℤ neg dr) (y +ℤ neg dc) (neg dr) (neg dc) back
    → (b.k ≤ 1 + fwd + back) ↔ LineOf b s x y dr dc
LineOf-iff b s x y dr dc fwd back k e f g = (
  λ le.
      let use_fwd = min fwd (b.k - 1) in
      record {
        back = b.k - 1 - use_fwd;
        fwd = use_fwd;
        size = omega arith;
        ahead = λ i lt. run_marks b s x y dr dc fwd e f i (omega arith);
        behind = λ i lt. run_marks b s x y (neg dr) (neg dc) back e g i (omega arith);
      },
  λ line.
      let p = marks_run b s x y dr dc fwd line.fwd f line.ahead in
      let q = marks_run b s x y (neg dr) (neg dc) back line.back g line.behind in
      let z = line.size in omega arith,
)

abbrev AllMoves : List (ℤ × ℤ) → Type 0
AllMoves [] = Unit
AllMoves ((dr, dc) ∷ ds) = (Moves dr dc × Moves (neg dr) (neg dc)) × AllMoves ds

win_along_step :
    (b : Board) (m : Move) (dr dc : ℤ) (ds : List (ℤ × ℤ)) (p q : ℕ)
    → count_dir b m dr dc ≡ some p
    → count_dir b m (neg dr) (neg dc) ≡ some q
    → win_along b m ((dr, dc) ∷ ds) ≡ (if leb b.k (1 + p + q) then some true else win_along b m ds)
unfolding win_along
win_along_step b m dr dc ds p q e f = rw (e, f)

win_along_iff :
    (b : Board) (m : Move) (s : ℕ) (ds : List (ℤ × ℤ))
    → HasCells b
    → 0 < b.k
    → mark b m.x m.y ≡ some s
    → AllMoves ds
    → (w : Bool) × (win_along b m ds ≡ some w) × ((w ≡ true) ↔ AnyLine b s m ds)
unfolding win_along
win_along_iff b m s [] h k e ok = (false, refl, ((λ t. cc), λ x. absurd x))
win_along_iff b m s ((dr, dc) ∷ ds) h k e ok =
    let (p, c, f) = count_dir_lem b m dr dc s h e ok.0.0 in
    let (q, d, g) = count_dir_lem b m (neg dr) (neg dc) s h e ok.0.1 in
    let first = LineOf-iff b s m.x m.y dr dc p q k e f g in
    let (w, more, others) = win_along_iff b m s ds h k e ok.1 in
    let head = win_along_step b m dr dc ds p q c d in
    elim (Bool-cases (leb b.k (1 + p + q))) [
      | inl yes_k ↦
          (true, head ∙ rw yes_k, ((λ t. inl (first.0 (leb→le b.k (1 + p + q) yes_k))), λ x. refl))
      | inr no_k ↦ (
        w,
        head ∙ (rw no_k) ∙ more,
        (
          (λ t. inr (others.0 t)),
          λ x. elim x [
            | inl line ↦ absurd (ground (arith, first.1 line))
            | inr line ↦ others.1 line
          ],
        ),
      )
    ]

-- The directions of the source are the four.
AnyLine-InLine : (b : Board) (s : ℕ) (m : Move) → AnyLine b s m dirs ↔ InLine b s m
AnyLine-InLine b s m = (to_line, from_line)
  where
    to_line : AnyLine b s m dirs → InLine b s m
    to_line (inl line) = (row, line)
    to_line (inr (inl line)) = (column, line)
    to_line (inr (inr (inl line))) = (diagonal, line)
    to_line (inr (inr (inr (inl line)))) = (antidiagonal, line)
    to_line (inr (inr (inr (inr line)))) = absurd line

    from_line : InLine b s m → AnyLine b s m dirs
    from_line (row, line) = inl line
    from_line (column, line) = inr (inl line)
    from_line (diagonal, line) = inr (inr (inl line))
    from_line (antidiagonal, line) = inr (inr (inr (inl line)))

-- For a mark on a board with all its cells, `is_win` returns, and answers yes exactly if `k` equal
-- marks in a row, along the row, the column, the diagonal or the anti-diagonal, go through the move.
pub is_win_iff :
    (b : Board) (m : Move) (s : ℕ)
    → HasCells b
    → 0 < b.k
    → mark b m.x m.y ≡ some s
    → (w : Bool) × (is_win b m ≡ some w) × ((w ≡ true) ↔ InLine b s m)
unfolding is_win
is_win_iff b m s h k e =
    let (w, run, lines) = win_along_iff b m s dirs h k e all_move in
    let (to_line, from_line) = AnyLine-InLine b s m in
    (w, run, ((λ t. to_line (lines.0 t)), λ line. lines.1 (from_line line)))
  where
    all_move : AllMoves dirs
    all_move = (
      (inr (inl refl), inr (inr refl)),
      (
        (inl (inl refl), inl (inr refl)),
        ((inl (inl refl), inl (inr refl)), ((inl (inl refl), inl (inr refl)), tt)),
      ),
    )
