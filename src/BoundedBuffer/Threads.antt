-- ===== src/BoundedBuffer/Threads.antt =====
-- `producer` and `consumer` of bounded_buffer.c, three of each, in any interleaving, with the waits
-- and the signals of the condition variables.
-- A call on the queue holds the mutex from its test to its wait or its return, so this is one turn.
-- A wait puts the thread to sleep; a signal wakes one sleeping thread, whichever the schedule
-- picks; a wait may also end by itself. A thread that is woken calls again: it takes the mutex and
-- repeats its test. `seen[v] += 1` is outside the mutex: its read and its write are two turns.
-- An int is its 32 bits as a natural. `none` is an access outside `buf` or `seen`, also by an index
-- that is a negative int, an overflow of an int, or a thread that is not there.
pub mod Sums
pub mod Invariant
pub mod Put
pub mod Get
pub mod Ending
pub mod Finish
use systems_drills.Base.{
  ℕ, zero, suc, ◌+◌, ◌*◌, ◌%◌, ◌^◌, Bool, true, false, Option, none, some, List, [], ◌∷◌, set, ltb,
  if◌then◌else◌, get_elem?, store?, ◌>>=◌, replicate,
}
use systems_drills.Base.Bits.{add64, mul64}
use systems_drills.BoundedBuffer.{Bq, bq_put, bq_get}

-- A producer before a call of bq_put or asleep in it: `worker.id`, the `i` of its loop.
pub record Producer : Type 0 where
  pub id : ℕ
  pub i : ℕ
  pub asleep : Bool

-- A consumer before a call of bq_get; asleep in it; with the value that it returned; with the
-- number read from that cell of `seen`.
pub data Place : Type 0 where
  before_get asleep_get : Place
  recording : ℕ → Place
  writing : ℕ → ℕ → Place

pub record Consumer : Type 0 where
  pub i : ℕ
  pub at : Place

-- The shared objects and the threads; `n` is `worker.n`, the same for all.
pub record System : Type 0 where
  pub q : Bq
  pub n : ℕ
  pub producers : List Producer
  pub consumers : List Consumer
  pub seen : List ℕ

abbrev pub wake_first {ℓ} : {A : Type ℓ} → (A → Bool) → (A → A) → List A → List A
wake_first sleeps wake [] = []
wake_first sleeps wake (x ∷ xs) = if sleeps x then wake x ∷ xs else x ∷ wake_first sleeps wake xs

-- pthread_cond_signal: the thread picked if it sleeps, or else the first that does.
unfoldable pub signal {ℓ} : {A : Type ℓ} → (A → Bool) → (A → A) → ℕ → List A → List A
signal sleeps wake pick xs = elim (get_elem? xs pick) [
  | none ↦ wake_first sleeps wake xs
  | some x ↦ if sleeps x then set xs pick (wake x) else wake_first sleeps wake xs
]

abbrev pub sleeps_put : Producer → Bool
sleeps_put p = p.asleep

abbrev pub wake_put : Producer → Producer
wake_put p = record p { asleep = false }

abbrev pub at_sleeps : Place → Bool
at_sleeps asleep_get = true
at_sleeps before_get = false
at_sleeps (recording v) = false
at_sleeps (writing v old) = false

abbrev pub sleeps_get : Consumer → Bool
sleeps_get c = at_sleeps c.at

abbrev pub wake_get : Consumer → Consumer
wake_get c = record c { at = Place.before_get }

-- arg->id * arg->n + i, as a size_t, to the int parameter of bq_put.
abbrev pub value_of : ℕ → Producer → ℕ
value_of n p = add64 (mul64 p.id n) p.i % 2 ^ 32

-- An int as an index.
abbrev pub seen_index : ℕ → Option ℕ
seen_index v = if ltb v (2 ^ 31) then some v else none

-- A turn of a producer; the schedule's `pick` is for its signal.
unfoldable pub producer_turn : System → ℕ → ℕ → Option System
producer_turn s k pick = do
  p ← get_elem? s.producers k
  if p.asleep
      then some s
      else if ltb p.i s.n
      then (do
        (stored, q') ← bq_put s.q (value_of s.n p)
        if stored
            then some (record s {
              q = q';
              producers = set s.producers k (record p { i = p.i + 1 });
              consumers = signal sleeps_get wake_get pick s.consumers;
            })
            else some
                (record s { q = q'; producers = set s.producers k (record p { asleep = true }) }))
      else some s

-- A turn of a consumer in each of its places.
unfoldable pub consume_from : Place → System → ℕ → Consumer → ℕ → Option System
consume_from before_get s k c pick =
    if ltb c.i s.n
    then (do
      (taken, q') ← bq_get s.q
      elim taken [
        | none ↦ some (record s {
          q = q';
          consumers = set s.consumers k (record c { at = Place.asleep_get });
        })
        | some v ↦ some (record s {
          q = q';
          consumers = set s.consumers k (record c { at = Place.recording v });
          producers = signal sleeps_put wake_put pick s.producers;
        })
      ])
    else some s
consume_from asleep_get s k c pick = some s
consume_from (recording v) s k c pick = do
  index ← seen_index v
  old ← get_elem? s.seen index
  some (record s { consumers = set s.consumers k (record c { at = Place.writing v old }) })
consume_from (writing v old) s k c pick = do
  index ← seen_index v
  new ← seen_index (old + 1)
  seen ← store? s.seen index new
  some (record s {
    seen = seen;
    consumers = set s.consumers k (record { i = c.i + 1; at = Place.before_get });
  })

unfoldable pub consumer_turn : System → ℕ → ℕ → Option System
consumer_turn s k pick = do c ← get_elem? s.consumers k; consume_from c.at s k c pick

-- The thread that runs next, by its number, with the pick for its signal; or the end of a wait.
pub data Turn : Type 0 where
  produce : ℕ → ℕ → Turn
  consume : ℕ → ℕ → Turn
  interrupt_producer : ℕ → Turn
  interrupt_consumer : ℕ → Turn

-- A wait that ends by itself.
unfoldable pub interrupt_put : System → ℕ → Option System
interrupt_put s k = do
  p ← get_elem? s.producers k
  if p.asleep then some (record s { producers = set s.producers k (wake_put p) }) else some s

unfoldable pub interrupt_get : System → ℕ → Option System
interrupt_get s k = do
  c ← get_elem? s.consumers k
  if at_sleeps c.at then some (record s { consumers = set s.consumers k (wake_get c) }) else some s

unfoldable pub turn : System → Turn → Option System
turn s (Turn.produce k pick) = producer_turn s k pick
turn s (Turn.consume k pick) = consumer_turn s k pick
turn s (Turn.interrupt_producer k) = interrupt_put s k
turn s (Turn.interrupt_consumer k) = interrupt_get s k

unfoldable pub run_turns : System → List Turn → Option System
run_turns s [] = some s
run_turns s (t ∷ more) = do s' ← turn s t; run_turns s' more

abbrev pub new_producer : ℕ → Producer
new_producer id = record { id = id; i = 0; asleep = false }

abbrev pub new_consumer : Consumer
new_consumer = record { i = 0; at = Place.before_get }

-- The threads of `main`, three of each, before their first round.
abbrev pub start : Bq → ℕ → System
start q n = record {
  q = q;
  n = n;
  producers = new_producer 0 ∷ new_producer 1 ∷ new_producer 2 ∷ [];
  consumers = new_consumer ∷ new_consumer ∷ new_consumer ∷ [];
  seen = replicate (3 * n) 0;
}
