-- ===== src/BoundedBuffer/Tests.antt =====
-- Concrete runs of the queue and of its threads, and the theorems at them.
use systems_drills.Base.{
  ℕ, ◌/◌, ◌<◌, ◌≡◌, ◌⊎◌, refl, true, false, Option, some, List, [], ◌∷◌, arith, get_or, replicate,
  length-replicate, some_inj, Bool, ◌&&◌, ltb, ltb→lt, store?, ◌>>=◌, length, ap, sym, ◌∙◌,
}
use systems_drills.BoundedBuffer.{Bq, Store, bq_init, bq_put, bq_get}
use systems_drills.BoundedBuffer.Init.{Sized, Served, Outcome, bq_init_lem}
use systems_drills.BoundedBuffer.Refine.{IsValid}
use systems_drills.BoundedBuffer.Threads.{
  System, Turn, run_turns, turn, producer_turn, consumer_turn, consume_from, interrupt_put,
  interrupt_get, signal, start,
}
use systems_drills.BoundedBuffer.Threads.Sums.{All}
use systems_drills.BoundedBuffer.Threads.Ending.{Ended, SomeoneRuns}
use systems_drills.BoundedBuffer.Threads.Finish.{
  IsThread, run_turns-seen_once, run_turns-SomeoneRuns,
}

abbrev heap : ℕ → Option (List ℕ)
heap n = some (replicate (n / 4) 0)

heap-Sized : Sized heap
heap-Sized n b e = ap length (sym (some_inj e)) ∙ length-replicate (n / 4) 0

abbrev no_queue : Bq
no_queue = record {
  buf = [];
  head = 0;
  tail = 0;
  count = 0;
  cap = 0;
  mutex = false;
  cond_not_empty = false;
  cond_not_full = false;
}

abbrev no_blocks : Store
no_blocks = record { q = no_queue; blocks = 0 }

bq_init_lem_example :
    Outcome (bq_init heap true true false no_blocks 4) 4 0 (Served heap true true false 4)
bq_init_lem_example =
    bq_init_lem heap true true false no_blocks 4 heap-Sized (omega arith)
      (record { no_buf = refl; no_mutex = refl; no_not_empty = refl; no_not_full = refl })

-- The queue of `main`.
abbrev four : Bq
four = record {
  buf = 0 ∷ 0 ∷ 0 ∷ 0 ∷ [];
  head = 0;
  tail = 0;
  count = 0;
  cap = 4;
  mutex = true;
  cond_not_empty = true;
  cond_not_full = true;
}

four-made : bq_init heap true true true no_blocks 4 ≡ (true, record { q = four; blocks = 1 })
unfolding bq_init
four-made = refl

four-IsValid : IsValid four
four-IsValid = record {
  size = refl;
  room = omega arith;
  tail_in = omega arith;
  head_slot = refl;
  fits = omega arith;
}

-- A consumer comes first, sleeps, wakes by itself and sleeps again, and a signal wakes it. The third
-- producer finds the queue full twice, and signals wake it. The reads and writes of `seen` of two
-- consumers are mixed.
abbrev turns : List Turn
turns =
    Turn.consume 0 0
    ∷ Turn.interrupt_consumer 0
    ∷ Turn.consume 0 0
    ∷ Turn.produce 0 0
    ∷ Turn.produce 0 0
    ∷ Turn.produce 1 0
    ∷ Turn.produce 1 0
    ∷ Turn.produce 2 0
    ∷ Turn.consume 0 2
    ∷ Turn.produce 2 0
    ∷ Turn.produce 2 0
    ∷ Turn.consume 1 1
    ∷ Turn.consume 0 0
    ∷ Turn.consume 1 0
    ∷ Turn.consume 0 0
    ∷ Turn.consume 1 0
    ∷ Turn.produce 2 0
    ∷ Turn.consume 0 0
    ∷ Turn.consume 0 0
    ∷ Turn.consume 0 0
    ∷ Turn.consume 1 0
    ∷ Turn.consume 1 0
    ∷ Turn.consume 1 0
    ∷ Turn.consume 2 0
    ∷ Turn.consume 2 0
    ∷ Turn.consume 2 0
    ∷ Turn.consume 2 0
    ∷ Turn.consume 2 0
    ∷ Turn.consume 2 0
    ∷ []

turns_seen :
    (run_turns (start four 2) turns >>= (λ s. some s.seen)) ≡ some (1 ∷ 1 ∷ 1 ∷ 1 ∷ 1 ∷ 1 ∷ [])
unfolding run_turns turn producer_turn consumer_turn consume_from interrupt_put interrupt_get signal
    bq_put bq_get store?
turns_seen = refl

abbrev is_thread : Turn → Bool
is_thread (Turn.produce k pick) = ltb k 3
is_thread (Turn.consume k pick) = ltb k 3
is_thread (Turn.interrupt_producer k) = ltb k 3
is_thread (Turn.interrupt_consumer k) = ltb k 3

is_thread-IsThread : (t : Turn) → is_thread t ≡ true → IsThread t
is_thread-IsThread (Turn.produce k pick) e = ltb→lt k 3 e
is_thread-IsThread (Turn.consume k pick) e = ltb→lt k 3 e
is_thread-IsThread (Turn.interrupt_producer k) e = ltb→lt k 3 e
is_thread-IsThread (Turn.interrupt_consumer k) e = ltb→lt k 3 e

abbrev all_threads : List Turn → Bool
all_threads [] = true
all_threads (t ∷ ts) = is_thread t && all_threads ts

all_threads-All : (ts : List Turn) → all_threads ts ≡ true → All IsThread ts
all_threads-All [] e = tt
all_threads-All (t ∷ ts) e =
    (is_thread-IsThread t (ground arith), all_threads-All ts (ground arith))

run_turns-seen_once_example :
    (s : System) × (run_turns (start four 2) turns ≡ some s)
    × (Ended s → (v : ℕ) → v < 6 → get_or s.seen v 0 ≡ 1)
run_turns-seen_once_example =
    run_turns-seen_once four 2 turns four-IsValid refl (omega arith) (all_threads-All turns refl)

run_turns-SomeoneRuns_example :
    (s : System) × (run_turns (start four 2) turns ≡ some s) × (Ended s ⊎ SomeoneRuns s)
run_turns-SomeoneRuns_example =
    run_turns-SomeoneRuns four 2 turns four-IsValid refl (omega arith) (all_threads-All turns refl)
