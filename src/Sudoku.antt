-- ===== src/Sudoku.antt =====
-- Interview/leetcode/12-sudoku-validator.c: the validator with three loop nests, and the one that
-- gathers each unit and also looks at the diagonals.
-- A board is the list of its cells, row by row. In an `Option (Option A)` here `none` is an access
-- outside an array or a failed assert, and `some none` is `return false`.
pub mod Loop
pub mod Unit
pub mod Board
pub mod Boxes
pub mod Valid
mod Tests
use systems_drills.Base.{
  ℕ, zero, suc, ◌+◌, ◌-◌, ◌*◌, ◌/◌, ◌%◌, Bool, true, false, ◌||◌, not, Option, none, some, List, [],
  ◌∷◌, ltb, ◌==◌, if◌then◌else◌, replicate, get_elem?, store?, ◌>>=◌,
}
use systems_drills.Base.Int.{ℤ, pos, negsuc, pos_part}

abbrev pub max_n : ℕ
max_n = 1000

-- What runs after a part that has not returned.
abbrev pub next {ℓ κ} :
    {A : Type ℓ} {B : Type κ} → Option (Option A) → (A → Option (Option B)) → Option (Option B)
next none k = none
next (some none) k = some none
next (some (some a)) k = k a

-- `for` from `i` on, `m` times.
unfoldable pub loop {ℓ} : {S : Type ℓ} → (ℕ → S → Option (Option S)) → ℕ → ℕ → S → Option (Option S)
loop body zero i s = some (some s)
loop body (suc m) i s = next (body i s) (loop body m (suc i))

-- `return true` at the end.
abbrev pub finish {ℓ} : {A : Type ℓ} → Option (Option A) → Option Bool
finish none = none
finish (some none) = some false
finish (some (some a)) = some true

abbrev pub cleared : List Bool
cleared = replicate (max_n + 1) false

-- The body of every inner loop, for the value of a cell.
unfoldable pub mark : ℕ → List Bool → ℤ → Option (Option (List Bool))
mark n seen (negsuc v) = some none
mark n seen (pos v) = if v == 0 then some (some seen) else if ltb n v then some none else (do
  was ← get_elem? seen v
  if was then some none else (do seen' ← store? seen v true; some (some seen')))

unfoldable pub visit : List ℤ → ℕ → ℕ → List Bool → Option (Option (List Bool))
visit board n index seen = do v ← get_elem? board index; mark n seen v

abbrev pub memset : List Bool → Option (Option (List Bool))
memset seen = some (some cleared)

-- The three loop nests of `sudoku_valid_v0`.
unfoldable pub check_row : List ℤ → ℕ → ℕ → List Bool → Option (Option (List Bool))
check_row board n i seen = next (loop (λ j. visit board n (i * n + j)) n 0 seen) memset

unfoldable pub check_col : List ℤ → ℕ → ℕ → List Bool → Option (Option (List Bool))
check_col board n i seen = next (loop (λ j. visit board n (j * n + i)) n 0 seen) memset

unfoldable pub check_box : List ℤ → ℕ → ℕ → ℕ → ℕ → List Bool → Option (Option (List Bool))
check_box board n box i j seen =
    let r0 = i * box in
    let c0 = j * box in
    next (loop (λ k. loop (λ l. visit board n ((k + r0) * n + c0 + l)) box 0) box 0 seen) memset

unfoldable pub check_all : List ℤ → ℕ → ℕ → Option (Option (List Bool))
check_all board n box = next (loop (check_row board n) n 0 cleared) (λ seen.
    next (loop (check_col board n) n 0 seen)
      (loop (λ i. loop (check_box board n box i) box 0) box 0))

-- The first test of both validators.
abbrev pub bad_size : ℤ → ℤ → Bool
bad_size (negsuc n) box = true
bad_size (pos n) (negsuc box) = true
bad_size (pos n) (pos box) = ltb max_n n || box == 0 || ltb n box || not (box * box == n)

unfoldable pub sudoku_valid_v0 : List ℤ → ℤ → ℤ → Option Bool
sudoku_valid_v0 board n box =
    if bad_size n box then some false else finish (check_all board (pos_part n) (pos_part box))

unfoldable pub unit_ok : List ℤ → ℕ → Option Bool
unit_ok vals n = finish (loop (λ i. visit vals n i) n 0 cleared)

-- The loop of a gatherer, with the index that it reads in round `i`.
unfoldable pub gather : List ℤ → (ℕ → ℕ) → ℕ → ℕ → Option (List ℤ)
gather board index zero i = some []
gather board index (suc m) i = do
  v ← get_elem? board (index i)
  out ← gather board index m (suc i)
  some (v ∷ out)

unfoldable pub row_gatherer : List ℤ → ℕ → ℕ → ℕ → Option (List ℤ)
row_gatherer board n b u = gather board (λ i. u * n + i) n 0

unfoldable pub col_gatherer : List ℤ → ℕ → ℕ → ℕ → Option (List ℤ)
col_gatherer board n b u = gather board (λ i. i * n + u) n 0

unfoldable pub sqr_gatherer : List ℤ → ℕ → ℕ → ℕ → Option (List ℤ)
sqr_gatherer board n b u =
    let r0 = u / b * b in
    let c0 = (u % b) * b in gather board (λ i. (r0 + i / b) * n + c0 + i % b) n 0

unfoldable pub diag_gatherer : List ℤ → ℕ → ℕ → ℕ → Option (List ℤ)
diag_gatherer board n b zero = gather board (λ i. i * n + i) n 0
diag_gatherer board n b (suc zero) = gather board (λ i. i * n + n - 1 - i) n 0
diag_gatherer board n b (suc (suc u)) = none

pub record GatherKind : Type 0 where
  pub g : List ℤ → ℕ → ℕ → ℕ → Option (List ℤ)
  pub n : ℕ

unfoldable pub check_unit : List ℤ → ℕ → ℕ → GatherKind → ℕ → Unit {0} → Option (Option (Unit {0}))
check_unit board n box kind j _ = do
  vals ← kind.g board n box j
  ok ← unit_ok vals n
  if ok then some (some tt) else some none

unfoldable pub check_kinds : List ℤ → ℕ → ℕ → List GatherKind → Option (Option (Unit {0}))
check_kinds board n box [] = some (some tt)
check_kinds board n box (kind ∷ kinds) =
    next (loop (check_unit board n box kind) kind.n 0 tt) (λ _. check_kinds board n box kinds)

abbrev pub kinds : ℕ → List GatherKind
kinds n =
    record { g = row_gatherer; n = n }
    ∷ record { g = col_gatherer; n = n }
    ∷ record { g = sqr_gatherer; n = n }
    ∷ record { g = diag_gatherer; n = 2 }
    ∷ []

unfoldable pub sudoku_valid : List ℤ → ℤ → ℤ → Option Bool
sudoku_valid board n box =
    if bad_size n box
    then some false
    else finish (check_kinds board (pos_part n) (pos_part box) (kinds (pos_part n)))
