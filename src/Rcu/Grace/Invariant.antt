-- ===== src/Rcu/Grace/Invariant.antt =====
-- What a reader may hold while the writer waits.
use systems_drills.Base.{ℕ, ◌%◌, ◌≤◌, ◌<◌, ◌≡◌, ◌≢◌, ◌⊎◌, Option, none, some, List, length}
use systems_drills.Rcu.{Region, max_regions}
use systems_drills.Rcu.Lookup.{IsTable}
use systems_drills.Rcu.Grace.{
  ReaderAt, WriterAt, System, max_readers, outside, entered, inside, looked, idle, publishing,
  waiting, spinning,
}

-- A table that is allocated, sorted and not too long.
abbrev pub IsLive : (ℕ → Option (List Region)) → ℕ → Type 0
IsLive heap a =
    (table : List Region) × (heap a ≡ some table) × IsTable table × (length table ≤ max_regions)

-- While the writer waits for the readers from `i` on, one of these may still hold the old table;
-- the reader that it spins on, only with the sequence number that it saw.
abbrev pub Pending : WriterAt → ℕ → ℕ → ℕ → Type 0
Pending idle id seq t = ⊥
Pending (publishing old new) id seq t = ⊥
Pending (waiting old i) id seq t = (t ≡ old) × (i ≤ id)
Pending (spinning old i seen) id seq t = (t ≡ old) × ((i < id) ⊎ (i ≡ id) × (seq ≡ seen))

abbrev pub Holds : System → ℕ → ℕ → ℕ → Type 0
Holds s id seq t = (seq % 2 ≡ 1) × IsLive s.heap t × ((t ≡ s.current) ⊎ Pending s.writer id seq t)

abbrev pub ReaderOk : System → ℕ → ℕ → ReaderAt → Type 0
ReaderOk s id seq outside = seq % 2 ≡ 0
ReaderOk s id seq entered = seq % 2 ≡ 1
ReaderOk s id seq (inside t) = Holds s id seq t
ReaderOk s id seq (looked t) = Holds s id seq t

abbrev pub WriterOk : System → WriterAt → Type 0
WriterOk s idle = Unit
WriterOk s (publishing old new) = (old ≡ s.current) × (new ≢ old) × IsLive s.heap new
WriterOk s (waiting old i) = (old ≢ s.current) × (i ≤ max_readers)
WriterOk s (spinning old i seen) = (old ≢ s.current) × (i < max_readers)

pub record Inv (s : System) : Type 0 where
  pub published : IsLive s.heap s.current
  pub unused : (a : ℕ) → s.next ≤ a → s.heap a ≡ none
  pub readers_ok : (id : ℕ) → id < max_readers → ReaderOk s id (s.readers id).seq (s.readers id).at
  pub writer_ok : WriterOk s s.writer
