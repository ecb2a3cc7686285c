-- ===== src/TicTacToe/Setup.antt =====
-- `set_board`: which sizes it accepts, and the board it sets up.
use systems_drills.Base.{
  ℕ, zero, suc, ◌+◌, ◌*◌, ◌≤◌, ◌<◌, ◌≡◌, ◌↔◌, sym, subst, refl, false, ◌||◌, Option, some, List,
  arith, length, get_or, set, store?-eq-set, length-set, get_or-set_self, get_or-set_ne, ap, ◌∙◌,
  dec_lt,
}
use systems_drills.Base.Int.{ℤ, pos, negsuc, pos_part, ltb_ℤ}
use systems_drills.TicTacToe.{Board, dash, max_brd, board_cell, fill_row, fill, set_board}
use systems_drills.TicTacToe.Runs.{HasCells}

cell_lt : (n r c : ℕ) → r < n → c < n → n * r + c < n * n
cell_lt n r c p q = grind arith

-- The first `m` cells are free.
abbrev FreeTo : Board → ℕ → Type 0
FreeTo b m = (i : ℕ) → i < m → get_or b.cells i 0 ≡ dash

-- Same size, all the cells, the first `m` of them free.
record Filled (b b' : Board) (m : ℕ) : Type 0 where
  same_n : b'.n ≡ b.n
  same_k : b'.k ≡ b.k
  same_counter : b'.counter ≡ b.counter
  has_cells : HasCells b'
  free_to : FreeTo b' m

fill_row_step :
    (left : ℕ) (b : Board) (i j : ℕ)
    → HasCells b
    → i < b.n
    → j < b.n
    → fill_row (suc left) b i j
      ≡ fill_row left (record b { cells = set b.cells (b.n * i + j) dash }) i (j + 1)
unfolding fill_row board_cell
fill_row_step left b i j h p q =
    ground (arith, cell_lt b.n i j, store?-eq-set b.cells (b.n * i + j) dash)

FreeTo-set :
    (b : Board) (m : ℕ)
    → m < length b.cells
    → FreeTo b m
    → FreeTo (record b { cells = set b.cells m dash }) (m + 1)
FreeTo-set b m lt free i le = elim (dec_lt i m) [
  | yes small ↦ get_or-set_ne b.cells m i dash 0 (omega arith) ∙ free i small
  | no big ↦ let e : i ≡ m = omega arith in rw (e, get_or-set_self b.cells m dash 0 lt)
]

row_next : (n i j : ℕ) → n * i + (j + 1) ≡ n * i + j + 1
row_next n i j = omega arith

fill_row_lem :
    (left : ℕ) (b : Board) (i j : ℕ)
    → HasCells b
    → i < b.n
    → left + j ≡ b.n
    → FreeTo b (b.n * i + j)
    → (b' : Board) × (fill_row left b i j ≡ some b') × Filled b b' (b.n * i + b.n)
unfolding fill_row
fill_row_lem zero b i j h p e free = (
  b,
  refl,
  record {
    same_n = refl;
    same_k = refl;
    same_counter = refl;
    has_cells = h;
    free_to = λ c lt. free c (omega arith);
  },
)
fill_row_lem (suc left) b i j h p e free =
    let cell = b.n * i + j in
    let b1 : Board = record b { cells = set b.cells cell dash } in
    let h1 : HasCells b1 = length-set b.cells cell dash ∙ h in
    let lt : cell < length b.cells = omega (arith, h, cell_lt b.n i j p (omega arith)) in
    let free1 = subst (FreeTo b1) (sym (row_next b.n i j)) (FreeTo-set b cell lt free) in
    let (b', run, f) = fill_row_lem left b1 i (j + 1) h1 p (omega arith) free1 in
    (
      b',
      fill_row_step left b i j h p (omega arith) ∙ run,
      record {
        same_n = f.same_n;
        same_k = f.same_k;
        same_counter = f.same_counter;
        has_cells = f.has_cells;
        free_to = f.free_to;
      },
    )

fill_lem :
    (left : ℕ) (b : Board) (i : ℕ)
    → HasCells b
    → left + i ≡ b.n
    → FreeTo b (b.n * i)
    → (b' : Board) × (fill left b i ≡ some b') × Filled b b' (b.n * b.n)
unfolding fill
fill_lem zero b i h e free = (
  b,
  refl,
  record {
    same_n = refl;
    same_k = refl;
    same_counter = refl;
    has_cells = h;
    free_to = subst (λ m. FreeTo b (b.n * m)) (omega (arith, e)) free;
  },
)
fill_lem (suc left) b i h e free =
    let (b1, run, f) =
      fill_row_lem b.n b i 0 h (omega arith) (omega arith)
        (subst (FreeTo b) (zero_right (b.n * i)) free) in
    let e1 : left + (i + 1) ≡ b1.n = omega (arith, f.same_n) in
    let free1 =
      subst (FreeTo b1) (next_row b.n i ∙ ap (λ n. n * (i + 1)) (sym f.same_n)) f.free_to in
    let (b', rest, g) = fill_lem left b1 (i + 1) f.has_cells e1 free1 in
    (
      b',
      (rw run) ∙ rest,
      record {
        same_n = g.same_n ∙ f.same_n;
        same_k = g.same_k ∙ f.same_k;
        same_counter = g.same_counter ∙ f.same_counter;
        has_cells = g.has_cells;
        free_to = subst (λ n. FreeTo b' (n * n)) f.same_n g.free_to;
      },
    )
  where
    zero_right : (m : ℕ) → m ≡ m + 0
    zero_right m = omega arith

    next_row : (n i : ℕ) → n * i + n ≡ n * (i + 1)
    next_row n i = grind arith

-- The sizes that can be played.
abbrev pub Playable : ℤ → ℤ → Type 0
Playable n k = (3 ≤ pos_part k) × (pos_part k ≤ pos_part n) × (pos_part n ≤ 25)

-- A free board of `n` rows, with `k` in a row to win.
pub record FreshBoard (b : Board) (n k : ℕ) : Type 0 where
  pub rows : b.n ≡ n
  pub wins : b.k ≡ k
  pub free : b.counter ≡ n * n
  pub has_cells : HasCells b
  pub all_free : (i : ℕ) → i < n * n → get_or b.cells i 0 ≡ dash

refused_iff :
    (n k : ℤ)
    → (ltb_ℤ n (pos 3) || ltb_ℤ max_brd n || ltb_ℤ k (pos 3) || ltb_ℤ n k ≡ false) ↔ Playable n k
refused_iff (pos n) (pos k) = ground arith
refused_iff (pos n) (negsuc k) = ground arith
refused_iff (negsuc n) (pos k) = ground arith
refused_iff (negsuc n) (negsuc k) = ground arith

-- With a playable size and a block of that many bytes, `set_board` succeeds, no assert fails, and
-- the board has all its cells, free, and counts them.
pub set_board_lem :
    (malloc : ℕ → Option (List ℕ)) (n k : ℤ) (block : List ℕ)
    → Playable n k
    → malloc (pos_part n * pos_part n) ≡ some block
    → length block ≡ pos_part n * pos_part n
    → (b : Board) × (set_board malloc n k ≡ some (some b)) × FreshBoard b (pos_part n) (pos_part k)
unfolding set_board
set_board_lem malloc n k block ok e h =
    let start : Board = record {
      n = pos_part n;
      k = pos_part k;
      counter = pos_part n * pos_part n;
      cells = block;
    } in
    let (b, run, f) =
      fill_lem (pos_part n) start 0 h (omega arith) (λ i lt. absurd (omega arith)) in
    let go = (refused_iff n k).1 ok in
    (
      b,
      rw (go, e, run),
      record {
        rows = f.same_n;
        wins = f.same_k;
        free = f.same_counter;
        has_cells = f.has_cells;
        all_free = f.free_to;
      },
    )
