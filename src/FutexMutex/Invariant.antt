-- ===== src/FutexMutex/Invariant.antt =====
-- The invariant of the lock word, the counter and the sleepers.
use systems_drills.Base.{ℕ, ◌≤◌, ◌<◌, ◌≡◌, ◌≢◌, ◌⊎◌}
use systems_drills.Base.Update.{sum}
use systems_drills.FutexMutex.{
  At, System, trying, slow, sleepy, asleep, critical, unlocking, waking, finished, adding,
}

-- The thread has the lock.
abbrev pub InCritical : At → Type 0
InCritical critical = Unit
InCritical (adding v) = Unit
InCritical unlocking = Unit
InCritical trying = ⊥
InCritical slow = ⊥
InCritical sleepy = ⊥
InCritical asleep = ⊥
InCritical waking = ⊥
InCritical finished = ⊥

-- The thread will wake a sleeper, or put 2 into the word.
abbrev pub WillNudge : At → Type 0
WillNudge slow = Unit
WillNudge waking = Unit
WillNudge trying = ⊥
WillNudge critical = ⊥
WillNudge (adding v) = ⊥
WillNudge unlocking = ⊥
WillNudge sleepy = ⊥
WillNudge asleep = ⊥
WillNudge finished = ⊥

-- The rounds that a thread has made, by its place; a value read is that of the counter.
abbrev pub RoundsOk : ℕ → ℕ → ℕ → At → Type 0
RoundsOk counter iter i finished = i ≡ iter
RoundsOk counter iter i unlocking = i ≤ iter
RoundsOk counter iter i waking = i ≤ iter
RoundsOk counter iter i trying = i < iter
RoundsOk counter iter i slow = i < iter
RoundsOk counter iter i sleepy = i < iter
RoundsOk counter iter i asleep = i < iter
RoundsOk counter iter i critical = i < iter
RoundsOk counter iter i (adding v) = (i < iter) × (v ≡ counter)

-- Nobody has the lock and the word is 0, or one thread has it and the word is not.
pub data Owner (n : ℕ) (s : System) : Type 0 where
  free : s.word ≡ 0 → ((k : ℕ) → k < n → ¬ InCritical (s.threads k).at) → Owner n s
  held :
      (h : ℕ)
      → h < n
      → s.word ≢ 0
      → InCritical (s.threads h).at
      → ((k : ℕ) → k < n → h ≢ k → ¬ InCritical (s.threads k).at)
      → Owner n s

abbrev pub Nudge : ℕ → System → Type 0
Nudge n s = (s.word ≡ 2) ⊎ (j : ℕ) × (j < n) × WillNudge (s.threads j).at

pub record Inv (n : ℕ) (s : System) : Type 0 where
  pub owner : Owner n s
  pub rounds : (k : ℕ) → k < n → RoundsOk s.counter s.iter (s.threads k).i (s.threads k).at
  pub total : s.counter ≡ sum n (λ k. (s.threads k).i)
  pub sleepers : (k : ℕ) → k < n → (s.threads k).at ≡ asleep → Nudge n s
