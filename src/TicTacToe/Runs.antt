-- ===== src/TicTacToe/Runs.antt =====
-- The walk of `count_dir` and the run of equal marks that it counts.
use systems_drills.Base.{
  ℕ, zero, suc, ◌+◌, ◌*◌, ◌<◌, ◌≡◌, ◌≢◌, ◌↔◌, ◌⊎◌, inl, inr, true, false, ◌&&◌, Option, none, some,
  arith, if◌then◌else◌, length, get_elem?, get_elem?-eq-get_or, Bool-cases, ℕ_discrete, some_inj,
  ap, ◌∙◌,
}
use systems_drills.Base.Int.{ℤ, pos, negsuc, ◌+ℤ◌, +ℤ_parts, pos_part, neg_part}
use systems_drills.TicTacToe.{Board, in_range, board_cell, walk}

abbrev pub HasCells : Board → Type 0
HasCells b = length b.cells ≡ b.n * b.n

abbrev pub OnBoard : Board → ℤ → ℤ → Type 0
OnBoard b x y = in_range b.n x && in_range b.n y ≡ true

-- The mark on a cell of the board; `none` outside.
unfoldable pub mark : Board → ℤ → ℤ → Option ℕ
mark b x y =
    if in_range b.n x && in_range b.n y
    then get_elem? b.cells (b.n * pos_part x + pos_part y)
    else none

cell_lt : (n r c : ℕ) → r < n → c < n → n * r + c < n * n
cell_lt n r c p q = grind arith

pub index_lt :
    (b : Board) (x y : ℤ)
    → HasCells b
    → OnBoard b x y
    → b.n * pos_part x + pos_part y < length b.cells
index_lt b (pos x) (pos y) h on = ground (arith, cell_lt b.n x y)
index_lt b (pos x) (negsuc y) h on = absurd (ground arith)
index_lt b (negsuc x) y h on = cc

-- The coordinate after `i` steps of `d`.
unfoldable pub steps : ℤ → ℤ → ℕ → ℤ
steps x d zero = x
steps x d (suc i) = steps (x +ℤ d) d i

-- The cells 0 .. r - 1 of a walk hold the symbol, and cell `r` does not.
pub record RunOf (b : Board) (symbol : ℕ) (x y dr dc : ℤ) (r : ℕ) : Type 0 where
  pub inside : (i : ℕ) → i < r → mark b (steps x dr i) (steps y dc i) ≡ some symbol
  pub ends : mark b (steps x dr r) (steps y dc r) ≢ some symbol

walk_on :
    (fuel : ℕ) (b : Board) (symbol : ℕ) (x y dr dc : ℤ) (c : ℕ)
    → mark b x y ≡ some symbol
    → walk (suc fuel) b symbol x y dr dc c ≡ walk fuel b symbol (x +ℤ dr) (y +ℤ dc) dr dc (c + 1)
unfolding walk mark board_cell
walk_on fuel b symbol x y dr dc c e = ground arith

walk_off :
    (fuel : ℕ) (b : Board) (symbol : ℕ) (x y dr dc : ℤ) (c : ℕ)
    → HasCells b
    → mark b x y ≢ some symbol
    → walk (suc fuel) b symbol x y dr dc c ≡ some c
unfolding walk mark board_cell
walk_off fuel b symbol x y dr dc c h e =
    ground (arith, index_lt b x y h, get_elem?-eq-get_or b.cells (b.n * pos_part x + pos_part y) 0)

Option-eq_dec : (o : Option ℕ) (s : ℕ) → Dec (o ≡ some s)
Option-eq_dec none s = no (λ e. cc)
Option-eq_dec (some v) s = elim (ℕ_discrete v s) [
  | yes e ↦ yes (ap some e)
  | no ne ↦ no (λ e. ne (some_inj e))
]

RunOf-zero : (b : Board) (s : ℕ) (x y dr dc : ℤ) → mark b x y ≢ some s → RunOf b s x y dr dc 0
unfolding steps
RunOf-zero b s x y dr dc ne = record { inside = λ i lt. absurd (omega arith); ends = ne }

RunOf-suc :
    (b : Board) (s : ℕ) (x y dr dc : ℤ) (r : ℕ)
    → mark b x y ≡ some s
    → RunOf b s (x +ℤ dr) (y +ℤ dc) dr dc r
    → RunOf b s x y dr dc (suc r)
unfolding steps
RunOf-suc b s x y dr dc r e run = record { inside = go; ends = run.ends }
  where
    go : (i : ℕ) → i < suc r → mark b (steps x dr i) (steps y dc i) ≡ some s
    go zero lt = e
    go (suc i) lt = run.inside i (omega arith)

-- If one of the first `fuel` cells stops the walk, the walk counts the run.
pub walk_counts :
    (fuel : ℕ) (b : Board) (s : ℕ) (x y dr dc : ℤ) (c bad : ℕ)
    → HasCells b
    → bad < fuel
    → mark b (steps x dr bad) (steps y dc bad) ≢ some s
    → (r : ℕ) × (walk fuel b s x y dr dc c ≡ some (c + r)) × RunOf b s x y dr dc r
unfolding steps
walk_counts zero b s x y dr dc c bad h lt stop = absurd (omega arith)
walk_counts (suc fuel) b s x y dr dc c zero h lt stop =
    (0, walk_off fuel b s x y dr dc c h stop ∙ ap some (omega arith), RunOf-zero b s x y dr dc stop)
walk_counts (suc fuel) b s x y dr dc c (suc bad) h lt stop = elim (Option-eq_dec (mark b x y) s) [
  | no off ↦
      (0, walk_off fuel b s x y dr dc c h off ∙ ap some (plus_zero c), RunOf-zero b s x y dr dc off)
  | yes on ↦
      let (r, e, run) =
        walk_counts fuel b s (x +ℤ dr) (y +ℤ dc) dr dc (c + 1) bad h (omega arith) stop in
      (
        suc r,
        walk_on fuel b s x y dr dc c on ∙ e ∙ ap some (plus_suc c r),
        RunOf-suc b s x y dr dc r on run,
      )
]
  where
    plus_zero : (c : ℕ) → c ≡ c + 0
    plus_zero c = omega arith

    plus_suc : (c r : ℕ) → c + 1 + r ≡ c + suc r
    plus_suc c r = omega arith

in_range_iff : (n : ℕ) (v : ℤ) → (in_range n v ≡ true) ↔ (neg_part v ≡ 0) × (pos_part v < n)
in_range_iff n (pos v) = ground arith
in_range_iff n (negsuc v) = ground arith

steps_up :
    (x : ℤ) (i : ℕ)
    → pos_part (steps x (pos 1) i) + neg_part x ≡ neg_part (steps x (pos 1) i) + pos_part x + i
unfolding steps
steps_up x zero = omega arith
steps_up x (suc i) = omega (arith, steps_up (x +ℤ pos 1) i, +ℤ_parts x (pos 1))

steps_down :
    (x : ℤ) (i : ℕ)
    → pos_part (steps x (negsuc 0) i) + neg_part x + i
      ≡ neg_part (steps x (negsuc 0) i) + pos_part x
unfolding steps
steps_down x zero = omega arith
steps_down x (suc i) = omega (arith, steps_down (x +ℤ negsuc 0) i, +ℤ_parts x (negsuc 0))

abbrev pub UnitStep : ℤ → Type 0
UnitStep d = (d ≡ pos 1) ⊎ (d ≡ negsuc 0)

-- After as many steps as there are rows a coordinate on the board is off it.
steps_leave : (n : ℕ) (x d : ℤ) → in_range n x ≡ true → UnitStep d → in_range n (steps x d n) ≢ true
steps_leave n x d on (inl e) off =
    let up = rw e at off in
    omega (arith, (in_range_iff n x).0 on, (in_range_iff n (steps x (pos 1) n)).0 up, steps_up x n)
steps_leave n x d on (inr e) off =
    let down = rw e at off in
    omega (
      arith,
      (in_range_iff n x).0 on,
      (in_range_iff n (steps x (negsuc 0) n)).0 down,
      steps_down x n,
    )

abbrev pub Moves : ℤ → ℤ → Type 0
Moves dr dc = UnitStep dr ⊎ UnitStep dc

mark_off :
    (b : Board) (x y : ℤ) (s : ℕ)
    → (in_range b.n x ≢ true) ⊎ (in_range b.n y ≢ true)
    → mark b x y ≢ some s
unfolding mark
mark_off b x y s off e = ground arith

-- So one of the first n + 1 cells of a walk stops it.
pub stopped :
    (b : Board) (s : ℕ) (x y dr dc : ℤ)
    → Moves dr dc
    → (bad : ℕ) × (bad < suc b.n) × (mark b (steps x dr bad) (steps y dc bad) ≢ some s)
unfolding steps
stopped b s x y dr dc moves = elim (Bool-cases (in_range b.n x && in_range b.n y)) [
  | inr off ↦ (0, omega arith, start_off off)
  | inl on ↦ (b.n, omega arith, mark_off b _ _ s (leave moves on))
]
  where
    start_off :
        in_range b.n x && in_range b.n y ≡ false → mark b (steps x dr 0) (steps y dc 0) ≢ some s
    start_off off = mark_off b x y s (ground arith)

    leave :
        Moves dr dc
        → in_range b.n x && in_range b.n y ≡ true
        → (in_range b.n (steps x dr b.n) ≢ true) ⊎ (in_range b.n (steps y dc b.n) ≢ true)
    leave (inl u) on = inl (steps_leave b.n x dr (ground arith) u)
    leave (inr u) on = inr (steps_leave b.n y dc (ground arith) u)
