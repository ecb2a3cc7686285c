-- ===== src/FutexMutex/Safety.antt =====
-- Every state that the workers reach.
use mathlib.Core.Path.{fun_ext}
use systems_drills.Base.{
  ℕ, ◌*◌, ◌<◌, ◌≡◌, ◌≢◌, inl, inr, refl, sym, ap, ◌∙◌, subst, arith, ltb, ltb→lt, ==_ne, ℕ_discrete,
  Bool-cases,
}
use systems_drills.Base.Update.{update_self, update_ne, sum_const}
use systems_drills.FutexMutex.{
  At, Thread, System, next_round, move, thread_step, step_from, start, Step, Reach, run, wake,
  wake_nobody, interrupt, here, next, trying, slow, asleep, waking, finished,
}
use systems_drills.FutexMutex.Invariant.{InCritical, WillNudge, RoundsOk, Owner, free, held, Inv}
use systems_drills.FutexMutex.Cases.{thread_step-Inv, waking-Inv, woken-Inv}

-- Two moves of different threads may be made in either order.
move-move :
    (s : System) (k j : ℕ) (a b : At) → k ≢ j → move (move s k a) j b ≡ move (move s j b) k a
move-move s k j a b ne = ap (λ f. record s { threads = f }) (fun_ext each)
  where
    each : (q : ℕ) → (move (move s k a) j b).threads q ≡ (move (move s j b) k a).threads q
    each q = ground (arith, ==_ne k j ne, ==_ne j k (λ e. ne (sym e)))

thread_step-waking :
    (s : System) (k : ℕ)
    → (s.threads k).at ≡ waking
    → thread_step s k ≡ move s k (next_round s.iter (s.threads k).i)
unfolding thread_step step_from
thread_step-waking s k e = rw (e, step_from)

wake-Inv :
    (n : ℕ) (s : System) (k j : ℕ)
    → k < n
    → j < n
    → Inv n s
    → (s.threads k).at ≡ waking
    → (s.threads j).at ≡ asleep
    → Inv n (move (thread_step s k) j slow)
wake-Inv n s k j k_lt j_lt inv wakes sleeps = subst (Inv n) (sym reordered) (
    waking-Inv n (move s j slow) k k_lt (woken-Inv n s j j_lt inv sleeps)
      (ap (λ (z : Thread). z.at) same_k ∙ wakes) (λ q below far e. inr (j, j_lt, still_slow)))
  where
    differ : k ≢ j
    differ e = waking_ne (sym wakes ∙ subst (λ q. (s.threads q).at ≡ asleep) (sym e) sleeps)
      where
        waking_ne : waking ≢ asleep
        waking_ne q = cc

    same_k : (move s j slow).threads k ≡ s.threads k
    same_k =
        update_ne s.threads j k (record { i = (s.threads j).i; at = slow }) (λ e. differ (sym e))

    goes : At
    goes = next_round s.iter ((move s j slow).threads k).i

    reordered : move (thread_step s k) j slow ≡ move (move s j slow) k goes
    reordered =
        ap (λ u. move u j slow) (thread_step-waking s k wakes)
        ∙ move-move s k j (next_round s.iter (s.threads k).i) slow differ
        ∙ ap (λ (z : Thread). move (move s j slow) k (next_round s.iter z.i)) (sym same_k)

    still_slow : WillNudge ((move (move s j slow) k goes).threads j).at
    still_slow =
        subst (λ (z : Thread). WillNudge z.at)
          (sym (
            update_ne (move s j slow).threads k j
              (record { i = ((move s j slow).threads k).i; at = goes }) differ
            ∙ update_self s.threads j (record { i = (s.threads j).i; at = slow })))
          tt

Step-Inv : (n : ℕ) {s u : System} → Step n s u → Inv n s → Inv n u
Step-Inv n {s} (run k lt ne e) inv = subst (Inv n) (sym e) (thread_step-Inv n s k lt inv ne)
Step-Inv n {s} (wake k j k_lt j_lt wakes sleeps e) inv =
    subst (Inv n) (sym e) (wake-Inv n s k j k_lt j_lt inv wakes sleeps)
Step-Inv n {s} (wake_nobody k lt wakes nobody e) inv =
    subst (Inv n) (sym (e ∙ thread_step-waking s k wakes))
      (waking-Inv n s k lt inv wakes (λ j below far q. absurd (nobody j below q)))
Step-Inv n {s} (interrupt k lt sleeps e) inv = subst (Inv n) (sym e) (woken-Inv n s k lt inv sleeps)

start-Inv : (n iter : ℕ) → Inv n (start iter)
unfolding start
start-Inv n iter = record {
  owner = free refl (λ k lt. next_first (λ at. ¬ InCritical at) (λ b. b) (λ b. b));
  rounds = λ k lt. first_rounds;
  total = sym (sum_const n 0 (λ _. 0) (λ q lt. refl) ∙ zero_right n);
  sleepers = λ k lt e. absurd (next_first (λ at. at ≢ asleep) (λ q. cc) (λ q. cc) e);
}
  where
    zero_right : (n : ℕ) → n * 0 ≡ 0
    zero_right n = omega arith

    next_first : (P : At → Type 0) → P trying → P finished → P (next_round iter 0)
    next_first P a b = elim (Bool-cases (ltb 0 iter)) [ inl e ↦ rw e a | inr e ↦ rw e b ]

    first_rounds : RoundsOk 0 iter 0 (next_round iter 0)
    first_rounds = elim (Bool-cases (ltb 0 iter)) [
      | inl e ↦ rw e (ltb→lt 0 iter e)
      | inr e ↦ rw e (ground arith)
    ]

pub Reach-Inv : (n iter : ℕ) {s : System} → Reach n (start iter) s → Inv n s
Reach-Inv n iter here = start-Inv n iter
Reach-Inv n iter (next r st) = Step-Inv n st (Reach-Inv n iter r)

one_owner :
    (n : ℕ) (s : System) (k j : ℕ)
    → Owner n s
    → k < n
    → j < n
    → InCritical (s.threads k).at
    → InCritical (s.threads j).at
    → k ≡ j
one_owner n s k j (free z none) k_lt j_lt a b = absurd (none k k_lt a)
one_owner n s k j (held h h_lt nz crit rest) k_lt j_lt a b =
    sym (to_holder k k_lt a) ∙ to_holder j j_lt b
  where
    to_holder : (q : ℕ) → q < n → InCritical (s.threads q).at → h ≡ q
    to_holder q lt c = elim (ℕ_discrete h q) [ yes e ↦ e | no ne ↦ absurd (rest q lt ne c) ]

-- However the threads are interleaved, never have two of them the lock at once.
pub my_lock_excludes :
    (n iter : ℕ) (s : System) (k j : ℕ)
    → Reach n (start iter) s
    → k < n
    → j < n
    → k ≢ j
    → ¬ (InCritical (s.threads k).at × InCritical (s.threads j).at)
my_lock_excludes n iter s k j r k_lt j_lt ne (a, b) =
    ne (one_owner n s k j (Reach-Inv n iter r).owner k_lt j_lt a b)
