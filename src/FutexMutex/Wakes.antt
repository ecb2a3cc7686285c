-- ===== src/FutexMutex/Wakes.antt =====
-- Which threads can run, and the counter when none is left to.
use systems_drills.Base.{
  ℕ, zero, suc, ◌*◌, ◌<◌, ◌≡◌, ◌≢◌, ◌⊎◌, inl, inr, refl, ap, ◌∙◌, subst, arith, ℕ_discrete,
}
use systems_drills.Base.Update.{sum_const}
use systems_drills.FutexMutex.{
  At, System, thread_step, step_from, start, Step, Reach, run, wake, wake_nobody, interrupt, here,
  next, trying, slow, sleepy, asleep, critical, unlocking, waking, finished, adding,
}
use systems_drills.FutexMutex.Invariant.{
  InCritical, WillNudge, RoundsOk, Owner, free, held, Nudge, Inv,
}
use systems_drills.FutexMutex.Safety.{Reach-Inv}

-- A thread that its next step does not leave where it is.
abbrev pub CanRun : At → Type 0
CanRun at = (at ≢ asleep) × (at ≢ finished)

at_cases : (at : At) → CanRun at ⊎ (at ≡ asleep) ⊎ (at ≡ finished)
at_cases asleep = inr (inl refl)
at_cases finished = inr (inr refl)
at_cases trying = inl ((λ q. cc), (λ q. cc))
at_cases slow = inl ((λ q. cc), (λ q. cc))
at_cases sleepy = inl ((λ q. cc), (λ q. cc))
at_cases critical = inl ((λ q. cc), (λ q. cc))
at_cases unlocking = inl ((λ q. cc), (λ q. cc))
at_cases waking = inl ((λ q. cc), (λ q. cc))
at_cases (adding v) = inl ((λ q. cc), (λ q. cc))

-- Some thread below `m` can run, or one sleeps and none can run, or all have finished.
data Survey (s : System) (m : ℕ) : Type 0 where
  runs : (k : ℕ) → k < m → CanRun (s.threads k).at → Survey s m
  sleeps :
      (k : ℕ)
      → k < m
      → (s.threads k).at ≡ asleep
      → ((j : ℕ) → j < m → ¬ CanRun (s.threads j).at)
      → Survey s m
  over : ((k : ℕ) → k < m → (s.threads k).at ≡ finished) → Survey s m

survey : (s : System) (m : ℕ) → Survey s m
survey s zero = over (λ k lt. ground arith)
survey s (suc m) = with_last (survey s m) (at_cases (s.threads m).at)
  where
    last_or : (j : ℕ) → j < suc m → (j < m) ⊎ (m ≡ j)
    last_or j lt = elim (ℕ_discrete m j) [ yes e ↦ inr e | no ne ↦ inl (omega arith) ]

    each_below :
        (P : At → Type 0)
        → ((j : ℕ) → j < m → P (s.threads j).at)
        → P (s.threads m).at
        → (j : ℕ) → j < suc m
        → P (s.threads j).at
    each_below P below last j lt = elim (last_or j lt) [
      | inl l ↦ below j l
      | inr e ↦ subst (λ q. P (s.threads q).at) e last
    ]

    finished_cannot : (at : At) → at ≡ finished → ¬ CanRun at
    finished_cannot at e can = can.1 e

    with_last :
        Survey s m
        → CanRun (s.threads m).at ⊎ ((s.threads m).at ≡ asleep) ⊎ ((s.threads m).at ≡ finished)
        → Survey s (suc m)
    with_last (runs k lt can) last = runs k (omega arith) can
    with_last (sleeps k lt e none) (inl can) = runs m (omega arith) can
    with_last (over all) (inl can) = runs m (omega arith) can
    with_last (sleeps k lt e none) (inr (inl q)) =
        sleeps k (omega arith) e (each_below (λ at. ¬ CanRun at) none (λ can. can.0 q))
    with_last (sleeps k lt e none) (inr (inr q)) =
        sleeps k (omega arith) e (each_below (λ at. ¬ CanRun at) none (λ can. can.1 q))
    with_last (over all) (inr (inl q)) = sleeps m (omega arith) q (
        each_below (λ at. ¬ CanRun at) (λ j l. finished_cannot (s.threads j).at (all j l))
          (λ can. can.0 q))
    with_last (over all) (inr (inr q)) = over (each_below (λ at. at ≡ finished) all q)

critical_runs : (at : At) → InCritical at → CanRun at
critical_runs critical c = ((λ q. cc), (λ q. cc))
critical_runs (adding v) c = ((λ q. cc), (λ q. cc))
critical_runs unlocking c = ((λ q. cc), (λ q. cc))
critical_runs trying c = absurd c
critical_runs slow c = absurd c
critical_runs sleepy c = absurd c
critical_runs asleep c = absurd c
critical_runs waking c = absurd c
critical_runs finished c = absurd c

nudging_runs : (at : At) → WillNudge at → CanRun at
nudging_runs slow c = ((λ q. cc), (λ q. cc))
nudging_runs waking c = ((λ q. cc), (λ q. cc))
nudging_runs trying c = absurd c
nudging_runs critical c = absurd c
nudging_runs (adding v) c = absurd c
nudging_runs unlocking c = absurd c
nudging_runs sleepy c = absurd c
nudging_runs asleep c = absurd c
nudging_runs finished c = absurd c

-- A thread that is to nudge the sleepers can run.
Nudge-runs :
    (n : ℕ) (s : System) → Owner n s → Nudge n s → (k : ℕ) × (k < n) × CanRun (s.threads k).at
Nudge-runs n s owner (inr (j, lt, will)) = (j, lt, nudging_runs (s.threads j).at will)
Nudge-runs n s (held h lt nz crit rest) (inl two) = (h, lt, critical_runs (s.threads h).at crit)
Nudge-runs n s (free z none) (inl two) = absurd (omega (arith, z, two))

-- The number of rounds is not changed.
step_from-iter : (at : At) (s : System) (k : ℕ) → (step_from at s k).iter ≡ s.iter
unfolding step_from
step_from-iter trying s k = refl
step_from-iter slow s k = refl
step_from-iter sleepy s k = refl
step_from-iter asleep s k = refl
step_from-iter critical s k = refl
step_from-iter (adding v) s k = refl
step_from-iter unlocking s k = refl
step_from-iter waking s k = refl
step_from-iter finished s k = refl

thread_step-iter : (s : System) (k : ℕ) → (thread_step s k).iter ≡ s.iter
unfolding thread_step
thread_step-iter s k = step_from-iter (s.threads k).at s k

Step-iter : (n : ℕ) {s u : System} → Step n s u → u.iter ≡ s.iter
Step-iter n {s} (run k lt ne e) = ap (λ (z : System). z.iter) e ∙ thread_step-iter s k
Step-iter n {s} (wake k j k_lt j_lt wakes dozes e) =
    ap (λ (z : System). z.iter) e ∙ thread_step-iter s k
Step-iter n {s} (wake_nobody k lt wakes none e) =
    ap (λ (z : System). z.iter) e ∙ thread_step-iter s k
Step-iter n {s} (interrupt k lt dozes e) = ap (λ (z : System). z.iter) e

Reach-iter : (n iter : ℕ) {s : System} → Reach n (start iter) s → s.iter ≡ iter
unfolding start
Reach-iter n iter here = refl
Reach-iter n iter (next r st) = Step-iter n st ∙ Reach-iter n iter r

-- However the threads are interleaved, and whichever waits end by themselves, no wake-up is lost and
-- no addition: either all the threads have finished, and the counter is the number of threads times
-- the number of rounds, or one of them is neither asleep nor finished.
pub my_unlock_wakes :
    (n iter : ℕ) (s : System)
    → Reach n (start iter) s
    → ((k : ℕ) → k < n → (s.threads k).at ≡ finished) × (s.counter ≡ n * iter)
      ⊎ (k : ℕ) × (k < n) × CanRun (s.threads k).at
my_unlock_wakes n iter s r = by_survey (survey s n)
  where
    inv : Inv n s
    inv = Reach-Inv n iter r

    all_rounds :
        ((k : ℕ) → k < n → (s.threads k).at ≡ finished) → (k : ℕ) → k < n → (s.threads k).i ≡ iter
    all_rounds all k lt =
        subst (RoundsOk s.counter s.iter (s.threads k).i) (all k lt) (inv.rounds k lt)
        ∙ Reach-iter n iter r

    by_survey :
        Survey s n
        → ((k : ℕ) → k < n → (s.threads k).at ≡ finished) × (s.counter ≡ n * iter)
          ⊎ (k : ℕ) × (k < n) × CanRun (s.threads k).at
    by_survey (runs k lt can) = inr (k, lt, can)
    by_survey (over all) =
        inl (all, inv.total ∙ sum_const n iter (λ k. (s.threads k).i) (all_rounds all))
    by_survey (sleeps k lt e none) = inr (Nudge-runs n s inv.owner (inv.sleepers k lt e))
