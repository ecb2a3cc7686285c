-- ===== src/FutexMutex/Tests.antt =====
-- Runs of the model of mutex.c, and its theorems at a state in the middle of a run.
use systems_drills.Base.{ℕ, ◌*◌, ◌<◌, ◌≡◌, ◌⊎◌, refl, arith, List, [], ◌∷◌}
use systems_drills.FutexMutex.{
  System, move, thread_step, step_from, start, Reach, run, here, next, slow, asleep, waking,
  finished,
}
use systems_drills.FutexMutex.Invariant.{InCritical}
use systems_drills.FutexMutex.Safety.{my_lock_excludes}
use systems_drills.FutexMutex.Wakes.{my_unlock_wakes, CanRun}

-- The steps of the threads named.
unfoldable runs : System → List ℕ → System
runs s [] = s
runs s (k ∷ ks) = runs (thread_step s k) ks

-- Thread 1 finds the lock taken and falls asleep; thread 0 makes its round and stops before the wake.
abbrev before_wake : System
before_wake = runs (start 1) (0 ∷ 1 ∷ 1 ∷ 1 ∷ 0 ∷ 0 ∷ 0 ∷ [])

before_wake_state :
    (before_wake.word ≡ 0)
    × (before_wake.counter ≡ 1)
    × ((before_wake.threads 0).at ≡ waking)
    × ((before_wake.threads 1).at ≡ asleep)
unfolding runs start thread_step step_from
before_wake_state = (refl, refl, refl, refl)

-- After the wake both threads come to the end.
woken_state :
    let s = runs (move (thread_step before_wake 0) 1 slow) (1 ∷ 1 ∷ 1 ∷ 1 ∷ 1 ∷ []) in
    (s.word ≡ 0) × (s.counter ≡ 2) × ((s.threads 0).at ≡ finished) × ((s.threads 1).at ≡ finished)
unfolding runs start thread_step step_from
woken_state = (refl, refl, refl, refl)

-- Thread 0 has the lock and thread 1 is after its first exchange.
abbrev contended : System
contended = thread_step (thread_step (start 1) 0) 1

contended_reached : Reach 2 (start 1) contended
unfolding start thread_step step_from
contended_reached =
    next (next here (run 0 (omega arith) (λ q. cc) refl)) (run 1 (omega arith) (λ q. cc) refl)

my_lock_excludes_example :
    ¬ (InCritical (contended.threads 0).at × InCritical (contended.threads 1).at)
my_lock_excludes_example =
    my_lock_excludes 2 1 contended 0 1 contended_reached (omega arith) (omega arith) (omega arith)

my_unlock_wakes_example :
    ((k : ℕ) → k < 2 → (contended.threads k).at ≡ finished) × (contended.counter ≡ 2 * 1)
    ⊎ (k : ℕ) × (k < 2) × CanRun (contended.threads k).at
my_unlock_wakes_example = my_unlock_wakes 2 1 contended contended_reached
