-- ===== src/TicTacToe/Game.antt =====
-- Moves: the free cells and their counter.
use systems_drills.Base.{
  ℕ, zero, suc, ◌+◌, ◌-◌, ◌*◌, ◌<◌, ◌≡◌, ◌≢◌, ◌⊎◌, inl, inr, sym, refl, Bool, true, false, ◌&&◌,
  none, some, List, [], ◌∷◌, arith, ◌==◌, length, get_or, set, store?-eq-set, length-set,
  get_or-set_self, get_or-set_ne, get_elem?-eq-get_or, if◌then◌else◌, ap, ◌∙◌, Bool-cases, ==_iff,
  ==_ne, some_inj,
}
use systems_drills.Base.Int.{ℤ, pos_part}
use systems_drills.TicTacToe.{Board, Move, dash, in_range, board_cell, make_move}
use systems_drills.TicTacToe.Runs.{HasCells, OnBoard, mark, index_lt}

abbrev pub free_cell : ℕ → ℕ
free_cell c = if c == dash then 1 else 0

abbrev pub count_free : List ℕ → ℕ
count_free [] = 0
count_free (c ∷ cs) = free_cell c + count_free cs

-- All the cells are there, and the counter is the number of free ones.
pub record ValidBoard (b : Board) : Type 0 where
  pub has_cells : HasCells b
  pub some_win : 0 < b.k
  pub counted : b.counter ≡ count_free b.cells

count_free-set :
    (cs : List ℕ) (i s : ℕ)
    → i < length cs
    → get_or cs i 0 ≡ dash
    → s ≢ dash
    → count_free (set cs i s) + 1 ≡ count_free cs
count_free-set [] i s lt e ne = absurd (omega arith)
count_free-set (c ∷ cs) zero s lt e ne = rw (e, ==_ne s dash ne) (omega arith)
count_free-set (c ∷ cs) (suc i) s lt e ne = omega (arith, count_free-set cs i s (omega arith) e ne)

abbrev pub index_of : Board → Move → ℕ
index_of b m = b.n * pos_part m.x + pos_part m.y

-- What a move that was possible does.
pub record Placed (b b' : Board) (m : Move) (s : ℕ) : Type 0 where
  pub on_board : OnBoard b m.x m.y
  pub was_free : mark b m.x m.y ≡ some dash
  pub now : mark b' m.x m.y ≡ some s
  pub one_less : b'.counter + 1 ≡ b.counter
  pub same_n : b'.n ≡ b.n
  pub same_k : b'.k ≡ b.k
  pub same : (i : ℕ) → i ≢ index_of b m → get_or b'.cells i 0 ≡ get_or b.cells i 0

make_move-off :
    (m : Move) (b : Board) (s : ℕ)
    → in_range b.n m.x && in_range b.n m.y ≡ false
    → make_move m b s ≡ some (false, b)
unfolding make_move
make_move-off m b s e = ground arith

make_move-taken :
    (m : Move) (b : Board) (s : ℕ)
    → HasCells b
    → OnBoard b m.x m.y
    → get_or b.cells (index_of b m) 0 ≢ dash
    → make_move m b s ≡ some (false, b)
unfolding make_move board_cell
make_move-taken m b s h on ne =
    ground (arith, index_lt b m.x m.y h on, get_elem?-eq-get_or b.cells (index_of b m) 0)

abbrev place_at : Board → Move → ℕ → Board
place_at b m s = record b { cells = set b.cells (index_of b m) s; counter = b.counter - 1 }

make_move-free :
    (m : Move) (b : Board) (s : ℕ)
    → HasCells b
    → OnBoard b m.x m.y
    → get_or b.cells (index_of b m) 0 ≡ dash
    → make_move m b s ≡ some (true, place_at b m s)
unfolding make_move board_cell
make_move-free m b s h on e = ground (
  arith,
  index_lt b m.x m.y h on,
  get_elem?-eq-get_or b.cells (index_of b m) 0,
  store?-eq-set b.cells (index_of b m) s,
)

mark_on :
    (b : Board) (x y : ℤ)
    → HasCells b
    → OnBoard b x y
    → mark b x y ≡ some (get_or b.cells (b.n * pos_part x + pos_part y) 0)
unfolding mark
mark_on b x y h on =
    rw on (get_elem?-eq-get_or b.cells (b.n * pos_part x + pos_part y) 0 (index_lt b x y h on))

mark-Off : (b : Board) (x y : ℤ) → in_range b.n x && in_range b.n y ≡ false → mark b x y ≡ none
unfolding mark
mark-Off b x y e = rw e

place_at-Valid :
    (b : Board) (m : Move) (s : ℕ)
    → ValidBoard b
    → s ≢ dash
    → OnBoard b m.x m.y
    → get_or b.cells (index_of b m) 0 ≡ dash
    → ValidBoard (place_at b m s)
place_at-Valid b m s v ne on e = record {
  has_cells = length-set b.cells (index_of b m) s ∙ v.has_cells;
  some_win = v.some_win;
  counted = omega (
    arith,
    v.counted,
    count_free-set b.cells (index_of b m) s (index_lt b m.x m.y v.has_cells on) e ne,
  );
}

place_at-Placed :
    (b : Board) (m : Move) (s : ℕ)
    → ValidBoard b
    → s ≢ dash
    → OnBoard b m.x m.y
    → get_or b.cells (index_of b m) 0 ≡ dash
    → Placed b (place_at b m s) m s
place_at-Placed b m s v ne on e =
    let lt = index_lt b m.x m.y v.has_cells on in
    let after = place_at-Valid b m s v ne on e in
    record {
      on_board = on;
      was_free = mark_on b m.x m.y v.has_cells on ∙ ap some e;
      now =
          mark_on (place_at b m s) m.x m.y after.has_cells on
          ∙ ap some (get_or-set_self b.cells (index_of b m) s 0 lt);
      one_less = omega (arith, v.counted, count_free-set b.cells (index_of b m) s lt e ne);
      same_n = refl;
      same_k = refl;
      same = λ i far. get_or-set_ne b.cells (index_of b m) i s 0 (λ same. far (sym same));
    }

-- On a valid board `make_move` returns, and leaves a valid board. A move to a free cell is made:
-- that cell gets the mark, every other cell stays, and the counter goes down by one. A move to
-- any other cell, or off the board, changes nothing.
pub make_move_lem :
    (m : Move) (b : Board) (s : ℕ)
    → ValidBoard b
    → s ≢ dash
    → (moved : Bool) × (b' : Board) × (make_move m b s ≡ some (moved, b'))
      × ValidBoard b'
      × ((moved ≡ true) × Placed b b' m s
          ⊎ (moved ≡ false) × (b' ≡ b) × (mark b m.x m.y ≢ some dash))
make_move_lem m b s v ne = elim (Bool-cases (in_range b.n m.x && in_range b.n m.y)) [
  | inr off ↦
      (false, b, make_move-off m b s off, v, inr (refl, refl, λ e. cc (e, mark-Off b m.x m.y off)))
  | inl on ↦ elim (Bool-cases (get_or b.cells (index_of b m) 0 == dash)) [
    | inl free ↦
        let e = (==_iff _ dash).0 free in
        (
          true,
          place_at b m s,
          make_move-free m b s v.has_cells on e,
          place_at-Valid b m s v ne on e,
          inl (refl, place_at-Placed b m s v ne on e),
        )
    | inr taken ↦
        let full : get_or b.cells (index_of b m) 0 ≢ dash = λ e. cc (taken, (==_iff _ dash).1 e) in
        (
          false,
          b,
          make_move-taken m b s v.has_cells on full,
          v,
          inr (refl, refl, λ e. full (some_inj (sym (mark_on b m.x m.y v.has_cells on) ∙ e))),
        )
  ]
]
