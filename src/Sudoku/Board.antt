-- ===== src/Sudoku/Board.antt =====
-- The cells of a board, and its units as the two validators visit them.
use native.Mathlib.Nat.{mul-le-mul_right, suc-mul}
use systems_drills.Base.{
  ℕ, zero, suc, ◌+◌, ◌-◌, ◌*◌, ◌/◌, ◌%◌, ◌≤◌, ◌<◌, ◌≡◌, inl, inr, refl, ap, ◌∙◌, some, List, [],
  ◌∷◌, arith, length, get_elem?-eq-get_or, get_or, ◌>>=◌,
}
use systems_drills.Base.Int.{ℤ, pos}
use systems_drills.Sudoku.{
  max_n, next, loop, cleared, mark, visit, memset, unit_ok, gather, check_unit, GatherKind,
}
use systems_drills.Sudoku.Loop.{Verdict, loop_cong}
use systems_drills.Sudoku.Unit.{UnitOk, Scanned, through, refused, scan_all}

-- The value in row `r` and column `c`.
abbrev pub cell : List ℤ → ℕ → ℕ → ℕ → ℤ
cell board n r c = get_or board (r * n + c) (pos 0)

abbrev pub RowOk : List ℤ → ℕ → ℕ → Type 0
RowOk board n r = UnitOk n n (λ i. cell board n r i)

abbrev pub ColOk : List ℤ → ℕ → ℕ → Type 0
ColOk board n c = UnitOk n n (λ i. cell board n i c)

-- The box in row `i` and column `j` of the boxes.
abbrev pub BoxOk : List ℤ → ℕ → ℕ → ℕ → ℕ → Type 0
BoxOk board n box i j = UnitOk n n (λ p. cell board n (i * box + p / box) (j * box + p % box))

abbrev pub DiagonalsOk : List ℤ → ℕ → Type 0
DiagonalsOk board n =
    UnitOk n n (λ i. cell board n i i) × UnitOk n n (λ i. cell board n i (n - 1 - i))

-- A row and a column below `n` make an index of the board.
pub cell_lt : (n r c : ℕ) → r < n → c < n → r * n + c < n * n
cell_lt n r c r_lt c_lt = omega (arith, mul-le-mul_right n r_lt, suc-mul r n)

module _ (board : List ℤ) (n : ℕ) (at : ℕ → ℕ) (fits : n ≤ max_n) where
  visit-mark :
      ((i : ℕ) → i < n → at i < length board)
      → loop (λ i. visit board n (at i)) n 0 cleared
        ≡ loop (λ i seen. mark n seen (get_or board (at i) (pos 0))) n 0 cleared
  unfolding visit
  visit-mark inside =
      loop_cong (λ i. visit board n (at i)) (λ i seen. mark n seen (get_or board (at i) (pos 0))) n
        0 cleared
        (λ i lo hi seen.
          ap (λ o. o >>= mark n seen)
            (get_elem?-eq-get_or board (at i) (pos 0) (inside i (omega arith))))

  -- A unit in a loop nest of the first validator.
  pub visits-Verdict :
      ((i : ℕ) → i < n → at i < length board)
      → Verdict
          (UnitOk n n (λ i. get_or board (at i) (pos 0)))
          cleared
          (next (loop (λ i. visit board n (at i)) n 0 cleared) memset)
  visits-Verdict inside = by_scan (scan_all n (λ i. get_or board (at i) (pos 0)) fits)
    where
      by_scan :
          Scanned n n
            (λ i. get_or board (at i) (pos 0))
            (loop (λ i seen. mark n seen (get_or board (at i) (pos 0))) n 0 cleared)
          → Verdict
              (UnitOk n n (λ i. get_or board (at i) (pos 0)))
              cleared
              (next (loop (λ i. visit board n (at i)) n 0 cleared) memset)
      by_scan (through seen e ok) = inl (ap (λ r. next r memset) (visit-mark inside ∙ e), ok)
      by_scan (refused e bad) = inr (ap (λ r. next r memset) (visit-mark inside ∙ e), bad)

-- What a gatherer stores.
record Gathered (board : List ℤ) (at : ℕ → ℕ) (m i : ℕ) : Type 0 where
  vals : List ℤ
  returns : gather board at m i ≡ some vals
  size : length vals ≡ m
  reads : (j : ℕ) → j < m → get_or vals j (pos 0) ≡ get_or board (at (i + j)) (pos 0)

gather_lem :
    (board : List ℤ) (at : ℕ → ℕ) (m i : ℕ)
    → ((j : ℕ) → i ≤ j → j < i + m → at j < length board)
    → Gathered board at m i
unfolding gather
gather_lem board at zero i inside = record {
  vals = [];
  returns = refl;
  size = refl;
  reads = λ j lt. absurd (omega arith);
}
gather_lem board at (suc m) i inside =
    let first = get_elem?-eq-get_or board (at i) (pos 0) (inside i (omega arith) (omega arith)) in
    let rest = gather_lem board at m (suc i) (λ j lo hi. inside j (omega arith) (omega arith)) in
    record {
      vals = get_or board (at i) (pos 0) ∷ rest.vals;
      returns = rw (first, rest.returns);
      size = ap suc rest.size;
      reads = reads rest.vals rest.reads;
    }
  where
    reads :
        (vals : List ℤ)
        → ((j : ℕ) → j < m → get_or vals j (pos 0) ≡ get_or board (at (suc i + j)) (pos 0))
        → (j : ℕ) → j < suc m
        → get_or (get_or board (at i) (pos 0) ∷ vals) j (pos 0) ≡ get_or board (at (i + j)) (pos 0)
    reads vals rest zero lt = ap (λ k. get_or board (at k) (pos 0)) (omega arith)
    reads vals rest (suc j) lt =
        rest j (omega arith) ∙ ap (λ k. get_or board (at k) (pos 0)) (omega arith)

module _ (board : List ℤ) (n box : ℕ) (kind : GatherKind) (u : ℕ) (at : ℕ → ℕ)
    (fits : n ≤ max_n) where
  -- A unit in the loop of the second validator.
  pub check_unit-Verdict :
      kind.g board n box u ≡ gather board at n 0
      → ((i : ℕ) → i < n → at i < length board)
      → Verdict
          (UnitOk n n (λ i. get_or board (at i) (pos 0)))
          tt
          (check_unit board n box kind u tt)
  unfolding check_unit unit_ok visit
  check_unit-Verdict is_gather inside = by_scan (scan_all n (λ i. get_or board (at i) (pos 0)) fits)
    where
      gathered : Gathered board at n 0
      gathered = gather_lem board at n 0 (λ j lo hi. inside j (omega arith))

      values : List ℤ
      values = gathered.vals

      same :
          loop (λ i. visit values n i) n 0 cleared
          ≡ loop (λ i seen. mark n seen (get_or board (at i) (pos 0))) n 0 cleared
      same =
          loop_cong (λ i. visit values n i) (λ i seen. mark n seen (get_or board (at i) (pos 0))) n
            0 cleared
            (λ i lo hi seen.
              ap (λ o. o >>= mark n seen)
                (get_elem?-eq-get_or values i (pos 0) (omega (arith, gathered.size))
                  ∙ ap some (
                      gathered.reads i (omega arith)
                      ∙ ap (λ k. get_or board (at k) (pos 0)) (omega arith))))

      by_scan :
          Scanned n n
            (λ i. get_or board (at i) (pos 0))
            (loop (λ i seen. mark n seen (get_or board (at i) (pos 0))) n 0 cleared)
          → Verdict
              (UnitOk n n (λ i. get_or board (at i) (pos 0)))
              tt
              (check_unit board n box kind u tt)
      by_scan (through seen e ok) = inl (rw (is_gather, gathered.returns, same, e) refl, ok)
      by_scan (refused e bad) = inr (rw (is_gather, gathered.returns, same, e) refl, bad)
