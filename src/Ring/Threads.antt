-- ===== src/Ring/Threads.antt =====
-- rb.c's `producer` and `consumer` threads over one ring, a shared access at a time, in any order.
-- The accesses take effect in the order of the schedule: the release and acquire pairs of the
-- source are what entitles the program to that view of `buf`, and they are not modelled further.
pub mod Inv
pub mod Safety
use systems_drills.Base.{
  ℕ, ◌+◌, ◌<◌, bit_and, Bool, true, false, Option, none, some, List, [], ◌∷◌, ltb, ◌==◌,
  if◌then◌else◌, get_elem?, store?, ◌>>=◌,
}
use systems_drills.Base.Bits.{add64, sub64}
use systems_drills.Ring.{Ring}

-- Where the producer stands, with its live locals: the counter `i` of its loop, and the `head` and
-- `tail` that `ring_write` has loaded.
pub data Producer : Type 0 where
  turn : (i : ℕ) → Producer
  got_head : (i head : ℕ) → Producer
  got_tail : (i head tail : ℕ) → Producer
  filled : (i head : ℕ) → Producer

-- The consumer: `checking` is before `check(v == i)`, `failed` is the exit(1) of that check.
pub data Consumer : Type 0 where
  turn : (i : ℕ) → Consumer
  got_tail : (i tail : ℕ) → Consumer
  got_head : (i tail head : ℕ) → Consumer
  taken : (i tail v : ℕ) → Consumer
  checking : (i v : ℕ) → Consumer
  failed : Consumer

pub record System : Type 0 where
  pub ring : Ring
  pub prod : Producer
  pub cons : Consumer

-- One access of the producer, with `n` for N_ITEMS; `none` is an access outside `buf`.
unfoldable pub producer_step : ℕ → Ring → Producer → Option (Ring × Producer)
producer_step n ring (Producer.turn i) =
    some (ring, if ltb i n then Producer.got_head i ring.head else Producer.turn i)
producer_step n ring (Producer.got_head i head) = some (ring, Producer.got_tail i head ring.tail)
producer_step n ring (Producer.got_tail i head tail) =
    if sub64 head tail == ring.capacity then some (ring, Producer.turn i) else do
      buf ← store? ring.buf (bit_and head ring.mask) i
      some (record ring { buf = buf }, Producer.filled i head)
producer_step n ring (Producer.filled i head) =
    some (record ring { head = add64 head 1 }, Producer.turn (i + 1))

unfoldable pub consumer_step : ℕ → Ring → Consumer → Option (Ring × Consumer)
consumer_step n ring (Consumer.turn i) =
    some (ring, if ltb i n then Consumer.got_tail i ring.tail else Consumer.turn i)
consumer_step n ring (Consumer.got_tail i tail) = some (ring, Consumer.got_head i tail ring.head)
consumer_step n ring (Consumer.got_head i tail head) =
    if head == tail
    then some (ring, Consumer.turn i)
    else do v ← get_elem? ring.buf (bit_and tail ring.mask); some (ring, Consumer.taken i tail v)
consumer_step n ring (Consumer.taken i tail v) =
    some (record ring { tail = add64 tail 1 }, Consumer.checking i v)
consumer_step n ring (Consumer.checking i v) =
    some (ring, if v == i then Consumer.turn (i + 1) else Consumer.failed)
consumer_step n ring Consumer.failed = some (ring, Consumer.failed)

pub data Thread : Type 0 where
  producer : Thread
  consumer : Thread

unfoldable pub step : ℕ → System → Thread → Option System
step n s Thread.producer = do
  (ring, prod) ← producer_step n s.ring s.prod
  some (record { ring = ring; prod = prod; cons = s.cons })
step n s Thread.consumer = do
  (ring, cons) ← consumer_step n s.ring s.cons
  some (record { ring = ring; prod = s.prod; cons = cons })

-- A schedule says which thread makes the next access.
unfoldable pub run_schedule : ℕ → System → List Thread → Option System
run_schedule n s [] = some s
run_schedule n s (t ∷ ts) = do s' ← step n s t; run_schedule n s' ts

abbrev pub start : Ring → System
start ring = record { ring = ring; prod = Producer.turn 0; cons = Consumer.turn 0 }
