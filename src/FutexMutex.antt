-- ===== src/FutexMutex.antt =====
-- concurrency/01-mutex/mutex.c: a mutex over one word and the futex call, and the workers that add
-- to a counter under it. Every step is one access of shared memory or one system call.
-- The futex calls are the kernel's: what they do is in `Step`. The counter is a natural number: the
-- program's long long holds every total that it can count to.
pub mod Invariant
pub mod Steps
pub mod Cases
pub mod Safety
pub mod Wakes
mod Tests
use systems_drills.Base.{ℕ, ◌+◌, ◌<◌, ◌≡◌, ◌≢◌, Bool, ltb, ◌==◌, if◌then◌else◌}
use systems_drills.Base.Update.{update}

-- A worker: before the first exchange of `my_lock`; before the exchange in its loop; before the futex
-- wait; asleep in it; with the lock, before the read of the counter; before its write; before the
-- exchange of `my_unlock`; before the futex wake; with the loop over.
pub data At : Type 0 where
  trying slow sleepy asleep critical unlocking waking finished : At
  adding : ℕ → At

-- `i` is the rounds made, counted from the write of the counter on.
pub record Thread : Type 0 where
  pub i : ℕ
  pub at : At

-- `word` is the lock word; `iter` is `worker_arg.iter`.
pub record System : Type 0 where
  pub word : ℕ
  pub counter : ℕ
  pub iter : ℕ
  pub threads : ℕ → Thread

-- The test of the `for` of `worker`.
abbrev pub next_round : ℕ → ℕ → At
next_round iter i = if ltb i iter then At.trying else At.finished

abbrev pub move : System → ℕ → At → System
move s k at = record s { threads = update s.threads k (record { i = (s.threads k).i; at = at }) }

-- What thread `k` does next, except in the futex wake.
unfoldable pub step_from : At → System → ℕ → System
step_from trying s k = move (record s { word = 1 }) k (if s.word == 0 then At.critical else At.slow)
step_from slow s k = move (record s { word = 2 }) k (if s.word == 0 then At.critical else At.sleepy)
step_from sleepy s k = move s k (if s.word == 2 then At.asleep else At.slow)
step_from asleep s k = s
step_from critical s k = move s k (At.adding s.counter)
step_from (adding v) s k = record s {
  counter = v + 1;
  threads = update s.threads k (record { i = (s.threads k).i + 1; at = At.unlocking });
}
step_from unlocking s k =
    move (record s { word = 0 }) k
      (if s.word == 2 then At.waking else next_round s.iter (s.threads k).i)
step_from waking s k = move s k (next_round s.iter (s.threads k).i)
step_from finished s k = s

unfoldable pub thread_step : System → ℕ → System
thread_step s k = step_from (s.threads k).at s k

-- The steps of `n` threads. A futex wake wakes one of the threads that are asleep, and nobody if
-- nobody is; a futex wait may also end by itself.
pub data Step (n : ℕ) (s u : System) : Type 0 where
  run : (k : ℕ) → k < n → (s.threads k).at ≢ At.waking → u ≡ thread_step s k → Step n s u
  wake :
      (k j : ℕ)
      → k < n
      → j < n
      → (s.threads k).at ≡ At.waking
      → (s.threads j).at ≡ At.asleep
      → u ≡ move (thread_step s k) j At.slow
      → Step n s u
  wake_nobody :
      (k : ℕ)
      → k < n
      → (s.threads k).at ≡ At.waking
      → ((j : ℕ) → j < n → (s.threads j).at ≢ At.asleep)
      → u ≡ thread_step s k
      → Step n s u
  interrupt : (k : ℕ) → k < n → (s.threads k).at ≡ At.asleep → u ≡ move s k At.slow → Step n s u

pub data Reach (n : ℕ) (s : System) : System → Type 0 where
  here : Reach n s s
  next : {t u : System} → Reach n s t → Step n t u → Reach n s u

-- `main` once its threads are created.
unfoldable pub start : ℕ → System
start iter = record {
  word = 0;
  counter = 0;
  iter = iter;
  threads = λ k. record { i = 0; at = next_round iter 0 };
}
