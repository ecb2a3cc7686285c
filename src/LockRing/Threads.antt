-- ===== src/LockRing/Threads.antt =====
-- `producer` and `consumer` of rb_lock.c with the blocking calls, in any interleaving.
-- What the mutex and the condition variables do is in the turns: a thread that finds the mutex taken
-- stays where it is; a wait gives the mutex back; a signal wakes the one thread that can wait on the
-- variable; a thread that is woken takes the mutex again and repeats its test; a wait may also end by
-- itself. What a thread does with the mutex is one turn, since the other thread is kept out.
pub mod Invariant
pub mod Producer
pub mod Consumer
pub mod Safety
use systems_drills.Base.{
  ℕ, ◌+◌, Bool, true, false, Option, none, some, List, [], ◌∷◌, ltb, ◌==◌, if◌then◌else◌, ◌>>=◌,
}
use systems_drills.Ring.{Ring}
use systems_drills.LockRing.{full, empty, put, take_out}

-- Before the lock of the mutex; with it, before the test of the `while`; before the unlock, with the
-- value written or read; in the wait; with the loop over.
pub data Place : Type 0 where
  before_lock testing asleep ended : Place
  before_unlock : ℕ → Place

-- `n` is N_ITEMS; `p_i` and `c_i` are the `i` of the two loops.
pub record System : Type 0 where
  pub ring : Ring
  pub locked : Bool
  pub n : ℕ
  pub p_i : ℕ
  pub p_at : Place
  pub c_i : ℕ
  pub c_at : Place

-- The test of the `for`.
abbrev pub next_place : ℕ → ℕ → Place
next_place n i = if ltb i n then Place.before_lock else Place.ended

-- The end of a wait, if the thread is in one.
abbrev pub woken : Place → Place
woken asleep = Place.before_lock
woken before_lock = Place.before_lock
woken testing = Place.testing
woken ended = Place.ended
woken (before_unlock v) = Place.before_unlock v

-- A round of `producer`, with the call of `ring_write`.
unfoldable pub produce_from : Place → System → Option System
produce_from before_lock s =
    if s.locked then some s else some (record s { locked = true; p_at = Place.testing })
produce_from testing s =
    if full s.ring then some (record s { locked = false; p_at = Place.asleep }) else (do
      ring ← put s.ring s.p_i
      some (record s { ring = ring; p_at = Place.before_unlock s.p_i; c_at = woken s.c_at }))
produce_from (before_unlock v) s =
    some (record s { locked = false; p_i = s.p_i + 1; p_at = next_place s.n (s.p_i + 1) })
produce_from asleep s = some s
produce_from ended s = some s

-- A round of `consumer`, with the call of `ring_read`; `none` is also the check that fails.
unfoldable pub consume_from : Place → System → Option System
consume_from before_lock s =
    if s.locked then some s else some (record s { locked = true; c_at = Place.testing })
consume_from testing s =
    if empty s.ring then some (record s { locked = false; c_at = Place.asleep }) else (do
      (value, ring) ← take_out s.ring
      some (record s { ring = ring; c_at = Place.before_unlock value; p_at = woken s.p_at }))
consume_from (before_unlock value) s =
    if value == s.c_i
    then some (record s { locked = false; c_i = s.c_i + 1; c_at = next_place s.n (s.c_i + 1) })
    else none
consume_from asleep s = some s
consume_from ended s = some s

pub data Turn : Type 0 where
  produce consume interrupt_producer interrupt_consumer : Turn

unfoldable pub turn : System → Turn → Option System
turn s produce = produce_from s.p_at s
turn s consume = consume_from s.c_at s
turn s interrupt_producer = some (record s { p_at = woken s.p_at })
turn s interrupt_consumer = some (record s { c_at = woken s.c_at })

unfoldable pub run_turns : System → List Turn → Option System
run_turns s [] = some s
run_turns s (t ∷ more) = do s' ← turn s t; run_turns s' more

-- The threads of `test_two_threads` before their first round.
abbrev pub start : Ring → ℕ → System
start ring n = record {
  ring = ring;
  locked = false;
  n = n;
  p_i = 0;
  p_at = next_place n 0;
  c_i = 0;
  c_at = next_place n 0;
}
