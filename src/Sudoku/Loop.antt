-- ===== src/Sudoku/Loop.antt =====
-- The counted loop: equal bodies, a loop in two parts, two nested loops as one, and a loop whose
-- rounds are decisions.
use systems_drills.Base.{
  ℕ, zero, suc, ◌+◌, ◌*◌, ◌≤◌, ◌<◌, ◌≡◌, ◌⊎◌, inl, inr, refl, sym, ap, ap₂, ℕ_discrete, ◌∙◌, subst,
  Option, none, some, arith,
}
use native.Mathlib.Nat.{add-zero, zero-add, suc-add, suc-mul, zero-mul, add_comm}
use systems_drills.Sudoku.{next, loop}

module _ {ℓ} {S : Type ℓ} where
  next_cong :
      (r : Option (Option S)) (f g : S → Option (Option S))
      → ((s : S) → f s ≡ g s)
      → next r f ≡ next r g
  next_cong none f g h = refl
  next_cong (some none) f g h = refl
  next_cong (some (some s)) f g h = h s

  next_assoc :
      (r : Option (Option S)) (f g : S → Option (Option S))
      → next (next r f) g ≡ next r (λ s. next (f s) g)
  next_assoc none f g = refl
  next_assoc (some none) f g = refl
  next_assoc (some (some s)) f g = refl

  pub loop_cong :
      (f g : ℕ → S → Option (Option S)) (m i : ℕ) (s : S)
      → ((j : ℕ) → i ≤ j → j < i + m → (s : S) → f j s ≡ g j s)
      → loop f m i s ≡ loop g m i s
  unfolding loop
  loop_cong f g zero i s h = refl
  loop_cong f g (suc m) i s h =
      ap (λ r. next r (loop f m (suc i))) (h i (omega arith) (omega arith) s)
      ∙ next_cong (g i s) (loop f m (suc i)) (loop g m (suc i))
          (λ s. loop_cong f g m (suc i) s (λ j lo hi. h j (omega arith) (omega arith)))

  loop_add :
      (g : ℕ → S → Option (Option S)) (a c i : ℕ) (s : S)
      → loop g (a + c) i s ≡ next (loop g a i s) (loop g c (i + a))
  unfolding loop
  loop_add g zero c i s =
      ap (λ m. loop g m i s) (zero-add c) ∙ ap (λ j. loop g c j s) (sym (add-zero i))
  loop_add g (suc a) c i s =
      ap (λ m. loop g m i s) (suc-add a c)
      ∙ next_cong (g i s) (loop g (a + c) (suc i))
          (λ t. next (loop g a (suc i) t) (loop g c (suc i + a))) (loop_add g a c (suc i))
      ∙ sym (next_assoc (g i s) (loop g a (suc i)) (loop g c (suc i + a)))
      ∙ ap (λ j. next (loop g (suc a) i s) (loop g c j)) (omega arith)

  loop_shift :
      (g : ℕ → S → Option (Option S)) (d m i : ℕ) (s : S)
      → loop (λ l. g (d + l)) m i s ≡ loop g m (d + i) s
  unfolding loop
  loop_shift g d zero i s = refl
  loop_shift g d (suc m) i s =
      next_cong (g (d + i) s) (loop (λ l. g (d + l)) m (suc i)) (loop g m (d + suc i))
        (loop_shift g d m (suc i))
      ∙ ap (λ j. next (g (d + i) s) (loop g m j)) (omega arith)

  -- A loop over `m` blocks of `b` rounds.
  pub loop_blocks :
      (g : ℕ → S → Option (Option S)) (b m i : ℕ) (s : S)
      → loop (λ k. loop (λ l. g (k * b + l)) b 0) m i s ≡ loop g (m * b) (i * b) s
  unfolding loop
  loop_blocks g b zero i s = ap (λ m. loop g m (i * b) s) (sym (zero-mul b))
  loop_blocks g b (suc m) i s =
      ap (λ r. next r (loop (λ k. loop (λ l. g (k * b + l)) b 0) m (suc i)))
        (loop_shift g (i * b) b 0 s)
      ∙ next_cong (loop g b (i * b + 0) s) (loop (λ k. loop (λ l. g (k * b + l)) b 0) m (suc i))
          (loop g (m * b) (suc i * b)) (loop_blocks g b m (suc i))
      ∙ ap₂ (λ j k. next (loop g b j s) (loop g (m * b) k)) (omega arith) (suc-mul i b)
      ∙ sym (loop_add g b (m * b) (i * b) s)
      ∙ ap (λ j. loop g j (i * b) s) (add_comm b (m * b) ∙ sym (suc-mul m b))

  -- The part goes on with `s`, and `P` holds; or it returns false, and `P` fails.
  abbrev pub Verdict : Type 0 → S → Option (Option S) → Type ℓ
  Verdict P s r = (r ≡ some (some s)) × P ⊎ (r ≡ some none) × ¬ P

  pub Verdict-next :
      (P Q : Type 0) (s t : S) (r : Option (Option S)) (k : S → Option (Option S))
      → Verdict P s r
      → Verdict Q t (k s)
      → Verdict (P × Q) t (next r k)
  Verdict-next P Q s t r k (inl (e, p)) (inl (e', q)) = inl (rw (e, e'), (p, q))
  Verdict-next P Q s t r k (inl (e, p)) (inr (e', nq)) = inr (rw (e, e'), λ both. nq both.1)
  Verdict-next P Q s t r k (inr (e, np)) v = inr (rw e, λ both. np both.0)

  pub Verdict-iff :
      (P Q : Type 0) (s : S) (r : Option (Option S))
      → (P → Q)
      → (Q → P)
      → Verdict P s r
      → Verdict Q s r
  Verdict-iff P Q s r f g (inl (e, p)) = inl (e, f p)
  Verdict-iff P Q s r f g (inr (e, np)) = inr (e, λ q. np (g q))

  -- Each round decides its own question and leaves the state as it was.
  pub loop-Verdict :
      (P : ℕ → Type 0) (body : ℕ → S → Option (Option S)) (s : S) (m i : ℕ)
      → ((j : ℕ) → i ≤ j → j < i + m → Verdict (P j) s (body j s))
      → Verdict ((j : ℕ) → i ≤ j → j < i + m → P j) s (loop body m i s)
  unfolding loop
  loop-Verdict P body s zero i h = inl (refl, λ j lo hi. absurd (omega arith))
  loop-Verdict P body s (suc m) i h =
      Verdict-iff (P i × ((j : ℕ) → suc i ≤ j → j < suc i + m → P j))
        ((j : ℕ) → i ≤ j → j < i + suc m → P j) s (next (body i s) (loop body m (suc i)))
        (λ both j lo hi. elim (ℕ_discrete i j) [
          | yes e ↦ subst P e both.0
          | no ne ↦ both.1 j (omega arith) (omega arith)
        ])
        (λ all. (all i (omega arith) (omega arith), λ j lo hi. all j (omega arith) (omega arith)))
        (Verdict-next (P i) ((j : ℕ) → suc i ≤ j → j < suc i + m → P j) s s (body i s)
          (loop body m (suc i)) (h i (omega arith) (omega arith))
          (loop-Verdict P body s m (suc i) (λ j lo hi. h j (omega arith) (omega arith))))

module _ {ℓ} {S : Type ℓ} where
  pub loop_all :
      (P : ℕ → Type 0) (body : ℕ → S → Option (Option S)) (s : S) (m : ℕ)
      → ((j : ℕ) → j < m → Verdict (P j) s (body j s))
      → Verdict ((j : ℕ) → j < m → P j) s (loop body m 0 s)
  loop_all P body s m h =
      Verdict-iff ((j : ℕ) → 0 ≤ j → j < 0 + m → P j) ((j : ℕ) → j < m → P j) s (loop body m 0 s)
        (λ all j lt. all j (omega arith) (omega arith)) (λ all j lo lt. all j (omega arith))
        (loop-Verdict P body s m 0 (λ j lo lt. h j (omega arith)))
