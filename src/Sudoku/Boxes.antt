-- ===== src/Sudoku/Boxes.antt =====
-- The boxes: four nested loops in the first validator, one index taken apart in the second.
use mathlib.Core.Path.{fun_ext}
use native.Mathlib.Nat.{
  add_assoc, add_comm, zero-mul, mul-add-div_right, div-eq_of_lt, add-mul-mod_self_right,
  mod-eq_of_lt, mod-lt, div-lt_iff_lt-mul, add-zero,
}
use systems_drills.Base.{
  ℕ, ◌+◌, ◌*◌, ◌/◌, ◌%◌, ◌≤◌, ◌<◌, ◌≡◌, sym, ap, ap₂, ◌∙◌, subst, List, arith, length,
}
use systems_drills.Base.Int.{ℤ}
use systems_drills.Sudoku.{
  max_n, next, loop, cleared, visit, memset, check_box, gather, sqr_gatherer, check_unit,
}
use systems_drills.Sudoku.Loop.{Verdict, Verdict-iff, loop_cong, loop_blocks, loop_all}
use systems_drills.Sudoku.Board.{cell_lt, BoxOk, visits-Verdict, check_unit-Verdict}

div_block : (b k l : ℕ) → l < b → (k * b + l) / b ≡ k
div_block b k l lt =
    mul-add-div_right (omega arith) k l ∙ ap (λ q. k + q) (div-eq_of_lt lt) ∙ add-zero k

mod_block : (b k l : ℕ) → l < b → (k * b + l) % b ≡ l
mod_block b k l lt =
    ap (λ q. q % b) (add_comm (k * b) l) ∙ add-mul-mod_self_right l k b ∙ mod-eq_of_lt lt

abbrev pub AllBoxes : List ℤ → ℕ → ℕ → Type 0
AllBoxes board n box = (i : ℕ) → i < box → (j : ℕ) → j < box → BoxOk board n box i j

module _ (board : List ℤ) (n box : ℕ) (fits : n ≤ max_n) (square : box * box ≡ n)
    (size : length board ≡ n * n) where
  some_box : (p : ℕ) → p < n → 0 < box
  some_box p lt = ground (arith, zero-mul box)

  row_part : (p : ℕ) → p < n → p / box < box
  row_part p lt = (div-lt_iff_lt-mul (some_box p lt)).1 (subst (λ m. p < m) (sym square) lt)

  col_part : (p : ℕ) → p < n → p % box < box
  col_part p lt = mod-lt p (some_box p lt)

  block_lt : (i k : ℕ) → i < box → k < box → i * box + k < n
  block_lt i k i_lt k_lt = subst (λ m. i * box + k < m) square (cell_lt box i k i_lt k_lt)

  -- The index of the cell number `p` of a box.
  abbrev at : ℕ → ℕ → ℕ → ℕ
  at i j p = (i * box + p / box) * n + (j * box + p % box)

  at_lt : (i j : ℕ) → i < box → j < box → (p : ℕ) → p < n → at i j p < length board
  at_lt i j i_lt j_lt p lt =
      subst (λ m. at i j p < m) (sym size)
        (cell_lt n (i * box + p / box) (j * box + p % box)
          (block_lt i (p / box) i_lt (row_part p lt)) (block_lt j (p % box) j_lt (col_part p lt)))

  at_block : (i j k l : ℕ) → l < box → (k + i * box) * n + j * box + l ≡ at i j (k * box + l)
  at_block i j k l lt =
      add_assoc ((k + i * box) * n) (j * box) l
      ∙ ap₂ (λ x y. x * n + (j * box + y))
          (add_comm k (i * box) ∙ ap (λ q. i * box + q) (sym (div_block box k l lt)))
          (sym (mod_block box k l lt))

  check_box-Verdict :
      (i j : ℕ)
      → i < box
      → j < box
      → Verdict (BoxOk board n box i j) cleared (check_box board n box i j cleared)
  unfolding check_box
  check_box-Verdict i j i_lt j_lt =
      subst (λ r. Verdict (BoxOk board n box i j) cleared (next r memset)) (sym flat)
        (visits-Verdict board n (at i j) fits (at_lt i j i_lt j_lt))
    where
      flat :
          loop
            (λ k. loop (λ l. visit board n ((k + i * box) * n + j * box + l)) box 0)
            box
            0
            cleared
          ≡ loop (λ p. visit board n (at i j p)) n 0 cleared
      flat =
          loop_cong (λ k. loop (λ l. visit board n ((k + i * box) * n + j * box + l)) box 0)
            (λ k. loop (λ l. visit board n (at i j (k * box + l))) box 0) box 0 cleared
            (λ k lo hi s.
              loop_cong (λ l. visit board n ((k + i * box) * n + j * box + l))
                (λ l. visit board n (at i j (k * box + l))) box 0 s
                (λ l lo hi s. ap (λ q. visit board n q s) (at_block i j k l (omega arith))))
          ∙ loop_blocks (λ p. visit board n (at i j p)) box box 0 cleared
          ∙ ap₂ (λ m q. loop (λ p. visit board n (at i j p)) m q cleared) square (zero-mul box)

  pub boxes-Verdict :
      Verdict
        (AllBoxes board n box)
        cleared
        (loop (λ i. loop (check_box board n box i) box 0) box 0 cleared)
  boxes-Verdict =
      loop_all (λ i. (j : ℕ) → j < box → BoxOk board n box i j)
        (λ i. loop (check_box board n box i) box 0) cleared box
        (λ i i_lt.
          loop_all (λ j. BoxOk board n box i j) (check_box board n box i) cleared box
            (λ j j_lt. check_box-Verdict i j i_lt j_lt))

  sqr_unit :
      (u : ℕ)
      → u < n
      → Verdict
          (BoxOk board n box (u / box) (u % box))
          tt
          (check_unit board n box (record { g = sqr_gatherer; n = n }) u tt)
  unfolding sqr_gatherer
  sqr_unit u lt =
      check_unit-Verdict board n box (record { g = sqr_gatherer; n = n }) u (at (u / box) (u % box))
        fits
        (ap (λ f. gather board f n 0)
          (fun_ext (λ i. add_assoc ((u / box * box + i / box) * n) (u % box * box) (i % box))))
        (at_lt (u / box) (u % box) (row_part u lt) (col_part u lt))

  pub sqr-Verdict :
      Verdict
        (AllBoxes board n box)
        tt
        (loop (check_unit board n box (record { g = sqr_gatherer; n = n })) n 0 tt)
  sqr-Verdict =
      Verdict-iff ((u : ℕ) → u < n → BoxOk board n box (u / box) (u % box)) (AllBoxes board n box)
        tt (loop (check_unit board n box (record { g = sqr_gatherer; n = n })) n 0 tt)
        (λ all i i_lt j j_lt.
          subst (λ k. BoxOk board n box k j) (div_block box i j j_lt)
            (subst (λ l. BoxOk board n box ((i * box + j) / box) l) (mod_block box i j j_lt)
              (all (i * box + j) (block_lt i j i_lt j_lt))))
        (λ all u lt. all (u / box) (row_part u lt) (u % box) (col_part u lt))
        (loop_all (λ u. BoxOk board n box (u / box) (u % box))
          (check_unit board n box (record { g = sqr_gatherer; n = n })) tt n sqr_unit)
