-- ===== src/LockRing/Tests.antt =====
-- Runs of the model of rb_lock.c, and its theorems at concrete inputs.
use systems_drills.Base.{
  ℕ, ◌/◌, ◌^◌, ◌≡◌, refl, ap, sym, ◌∙◌, true, Option, none, some, List, [], ◌∷◌, ◌++◌, arith,
  some_inj, store?, length, replicate, length-replicate,
}
use systems_drills.Base.Int.{pos, negsuc}
use systems_drills.Ring.{Ring, smear_loop}
use systems_drills.Ring.Valid.{Sized}
use systems_drills.LockRing.{
  lock, put, take_out, init_ring, next_pow2, ring_try_write, ring_try_read, wanted_capacity,
}
use systems_drills.LockRing.Calls.{unlocked}
use systems_drills.LockRing.Selftest.{
  main_ring, test_single_thread, refuses_read, refuses_write, fill, drain, wrap_around, drain_all,
  Leaves,
}
use systems_drills.LockRing.Startup.{Serves, main_ring_lem}
use systems_drills.LockRing.Threads.{
  Place, System, Turn, produce, consume, interrupt_producer, asleep, before_lock, turn, run_turns,
  start, produce_from, consume_from,
}
use systems_drills.LockRing.Threads.Safety.{Sound, two_threads_lem}

-- An allocator that never refuses.
heap : ℕ → Option (List ℕ)
heap n = some (replicate (n / 8) 0)

heap-Sized : Sized heap
unfolding heap
heap-Sized n b e = ap length (sym (some_inj e)) ∙ length-replicate (n / 8) 0

heap-Serves : Serves heap
unfolding heap
heap-Serves n le = (replicate (n / 8) 0, refl)

abbrev two_cells : Ring
two_cells = record { capacity = 2; mask = 1; buf = 0 ∷ 0 ∷ []; head = 0; tail = 0 }

init_two : (init_ring heap 2 ≡ some (unlocked two_cells)) × (init_ring heap 3 ≡ none)
unfolding init_ring heap
init_two = (refl, refl)

wanted :
    (wanted_capacity none ≡ some 1024)
    × (wanted_capacity (some (pos 5)) ≡ some 8)
    × (wanted_capacity (some (pos 0)) ≡ none)
    × (wanted_capacity (some (negsuc 4)) ≡ none)
unfolding wanted_capacity next_pow2 smear_loop
wanted = (refl, refl, refl, refl)

-- A call on a ring whose mutex the caller has.
locked_call : ring_try_write (record { ring = two_cells; locked = true }) 7 ≡ none
unfolding ring_try_write lock
locked_call = refl

-- The test moves the indices by 7 capacities and a half.
abbrev tested : Ring
tested = record { capacity = 2; mask = 1; buf = 10 ∷ 9 ∷ []; head = 13; tail = 13 }

test_two : test_single_thread (unlocked two_cells) ≡ some (unlocked tested)
unfolding test_single_thread refuses_read refuses_write fill drain wrap_around drain_all
    ring_try_write ring_try_read lock put take_out store?
test_two = refl

-- The producer fills the ring and sleeps; a read wakes it.
abbrev filled : List Turn
filled = produce ∷ produce ∷ produce ∷ produce ∷ produce ∷ produce ∷ produce ∷ produce ∷ []

abbrev places : Option System → Option (Place × ℕ)
places none = none
places (some s) = some (s.p_at, s.c_i)

sleeps : places (run_turns (start two_cells 3) filled) ≡ some (asleep, 0)
unfolding run_turns turn produce_from put store?
sleeps = refl

wakes :
    places (run_turns (start two_cells 3) (filled ++ (consume ∷ consume ∷ [])))
    ≡ some (before_lock, 0)
unfolding run_turns turn produce_from consume_from put take_out store?
wakes = refl

main_ring_lem_example : (k : ℕ) × (b : ℕ) × Leaves k b 0 (main_ring heap (some (pos 5)))
main_ring_lem_example =
    main_ring_lem heap (some (pos 5)) heap-Sized heap-Serves ((λ e. cc), omega arith)

two_threads_lem_example :
    (k : ℕ) × (ring : Ring) × (s : System) × (main_ring heap (some (pos 5)) ≡ some (unlocked ring))
    × (ring.capacity ≡ 2 ^ k)
    × (run_turns (start ring 3) (produce ∷ produce ∷ consume ∷ interrupt_producer ∷ []) ≡ some s)
    × Sound k 3 s
two_threads_lem_example =
    two_threads_lem heap (some (pos 5)) 3 (produce ∷ produce ∷ consume ∷ interrupt_producer ∷ [])
      heap-Sized heap-Serves ((λ e. cc), omega arith)
