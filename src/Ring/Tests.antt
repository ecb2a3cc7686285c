-- ===== src/Ring/Tests.antt =====
-- Runs of the model of rb.c, and its theorems at concrete inputs.
use systems_drills.Base.{
  ℕ, ◌/◌, ◌^◌, ◌-◌, ◌≤◌, ◌+◌, ◌≡◌, ◌≢◌, refl, ap, sym, ◌∙◌, bit_and, true, false, Option, none,
  some, List, [], ◌∷◌, arith, some_inj, store?, length, replicate, length-replicate,
}
use systems_drills.Queue.Client.{Op, put, get, stored, taken, run, run_spec}
use systems_drills.Ring.{Ring, init_ring, ring_write, ring_read, next_pow2, smear_loop}
use systems_drills.Ring.Pow2.{next_pow2_least, next_pow2_too_big}
use systems_drills.Ring.Valid.{Sized, init_ring_overflow}
use systems_drills.Ring.Refine.{init_ring-run}
use systems_drills.Ring.Threads.{
  System, Thread, Producer, Consumer, producer_step, consumer_step, step, run_schedule, start,
}
use systems_drills.Ring.Threads.Safety.{two_threads_fifo, no_shared_cell}

-- An allocator that never refuses.
heap : ℕ → Option (List ℕ)
heap n = some (replicate (n / 8) 0)

heap-Sized : Sized heap
unfolding heap
heap-Sized n b e = ap length (sym (some_inj e)) ∙ length-replicate (n / 8) 0

heap_nothing : heap 0 ≡ some []
unfolding heap
heap_nothing = refl

abbrev two_cells : Ring
two_cells = record { capacity = 2; mask = 1; buf = 0 ∷ 0 ∷ []; head = 0; tail = 0 }

init_two : init_ring heap 2 ≡ some two_cells
unfolding init_ring heap
init_two = refl

init_three : init_ring heap 3 ≡ none
unfolding init_ring heap
init_three = refl

pow2_values : (next_pow2 0 ≡ 1) × (next_pow2 5 ≡ 8) × (next_pow2 1024 ≡ 1024)
unfolding next_pow2 smear_loop
pow2_values = (refl, refl, refl)

abbrev script : List Op
script = put 7 ∷ put 8 ∷ put 9 ∷ get ∷ get ∷ get ∷ []

script_replies :
    run ring_write ring_read two_cells script
    ≡ some (
        stored true
        ∷ stored true
        ∷ stored false
        ∷ taken (some 7)
        ∷ taken (some 8)
        ∷ taken none
        ∷ [])
unfolding run ring_write ring_read store?
script_replies = refl

next_pow2_least_example :
    (k : ℕ) × (k ≤ 63) × (next_pow2 5 ≡ 2 ^ k) × (5 ≤ 2 ^ k) × ((j : ℕ) → 5 ≤ 2 ^ j → 2 ^ k ≤ 2 ^ j)
next_pow2_least_example = next_pow2_least 5 (omega arith)

next_pow2_too_big_example : next_pow2 (2 ^ 63 + 1) ≡ 0
next_pow2_too_big_example = next_pow2_too_big (2 ^ 63 + 1) (omega arith) (omega arith)

init_ring-run_example : run ring_write ring_read two_cells script ≡ some (run_spec 2 [] script)
init_ring-run_example = init_ring-run heap 2 two_cells script heap-Sized (omega arith) init_two

-- An allocator that serves the empty request with a block of no cells.
no_cells : List ℕ
no_cells = []

huge : Ring
huge = record { capacity = 2 ^ 62; mask = 2 ^ 62 - 1; buf = no_cells; head = 0; tail = 0 }

init_huge : init_ring heap (2 ^ 62) ≡ some huge
unfolding init_ring heap huge no_cells
init_huge = refl

init_ring_overflow_example :
    (ring : Ring) × (init_ring heap (2 ^ 62) ≡ some ring)
    × (length ring.buf ≡ 0)
    × ((x : ℕ) → ring_write ring x ≡ none)
init_ring_overflow_example =
    init_ring_overflow heap 62 [] heap-Sized (omega arith) (omega arith) heap_nothing

-- The producer sends one value and stands before its second store; the consumer has seen the first.
abbrev race : List Thread
race =
    Thread.producer ∷ Thread.producer ∷ Thread.producer ∷ Thread.producer ∷ Thread.producer
    ∷ Thread.producer ∷ Thread.consumer ∷ Thread.consumer ∷ []

abbrev racing : System
racing = record {
  ring = record { capacity = 2; mask = 1; buf = 0 ∷ 0 ∷ []; head = 1; tail = 0 };
  prod = Producer.got_tail 1 1 0;
  cons = Consumer.got_head 0 0 1;
}

race-racing : run_schedule 3 (start two_cells) race ≡ some racing
unfolding run_schedule step producer_step consumer_step store?
race-racing = refl

no_shared_cell_example : bit_and 1 1 ≢ bit_and 0 1
no_shared_cell_example =
    no_shared_cell heap 2 3 race racing 1 1 0 0 0 1 heap-Sized (omega arith) (omega arith) init_two
      race-racing refl (omega arith) refl (omega arith)

two_threads_fifo_example :
    (s : System) × (run_schedule 3 (start two_cells) race ≡ some s)
    × (s.cons ≢ Consumer.failed)
    × (s.ring.tail ≤ s.ring.head)
    × (s.ring.head ≤ s.ring.tail + 2)
two_threads_fifo_example =
    two_threads_fifo heap 2 3 race heap-Sized (omega arith) (omega arith) init_two
