-- ===== src/Ring/Threads/Safety.antt =====
-- What every schedule of the two threads keeps.
use systems_drills.Base.{
  ℕ, ◌+◌, ◌^◌, ◌≤◌, ◌<◌, ◌≡◌, ◌≢◌, refl, Option, none, some, List, [], ◌∷◌, ◌>>=◌, arith, bit_and,
  subst, sym, ◌∙◌,
}
use systems_drills.Base.Bits.{word, sub64}
use systems_drills.Base.Bits.Digit.{two_pow_mono}
use systems_drills.Ring.{Ring, init_ring}
use systems_drills.Ring.Valid.{IsValid, Sized, init_ring-IsValid}
use systems_drills.Ring.Threads.{
  Producer, Consumer, System, Thread, producer_step, consumer_step, step, run_schedule, start,
}
use systems_drills.Ring.Threads.Inv.{
  Holds, Publishes, Releases, Inv, StepsInto, producer_step-Inv, consumer_step-Inv, slot_of,
  slot-distinct,
}

start-Inv :
    {n k : ℕ} {ring : Ring}
    → n < word
    → IsValid k ring
    → ring.head ≡ 0
    → ring.tail ≡ 0
    → Inv n k (start ring)
start-Inv few v h t = record {
  few = few;
  small = v.small;
  holds = record {
    power = v.power;
    masked = v.masked;
    cells = v.cells;
    order = omega arith;
    room = omega arith;
    slots = λ x le lt. absurd (omega arith);
  };
  prod = omega arith;
  cons = omega arith;
}

-- A state that follows from `s` without a fault, and has the invariant.
abbrev Leads : ℕ → ℕ → Option System → Type 0
Leads n k r = (s : System) × (r ≡ some s) × Inv n k s

step-Inv : {n k : ℕ} (s : System) (t : Thread) → Inv n k s → Leads n k (step n s t)
unfolding step
step-Inv {n} {k} s Thread.producer inv =
    go (producer_step n s.ring s.prod)
      (producer_step-Inv inv.few inv.small inv.holds s.prod s.cons inv.prod inv.cons)
  where
    go :
        (r : Option (Ring × Producer))
        → StepsInto r (λ ring p. Holds k ring × Publishes n k ring p × Releases n ring s.cons)
        → Leads n k (r >>= λ q. some (record { ring = q.0; prod = q.1; cons = s.cons }))
    go none h = absurd h
    go (some (ring, p)) h =
        (_, refl, record { few = inv.few; small = inv.small; holds = h.0; prod = h.1; cons = h.2 })
step-Inv {n} {k} s Thread.consumer inv =
    go (consumer_step n s.ring s.cons)
      (consumer_step-Inv inv.few inv.small inv.holds s.cons s.prod inv.prod inv.cons)
  where
    go :
        (r : Option (Ring × Consumer))
        → StepsInto r (λ ring c. Holds k ring × Publishes n k ring s.prod × Releases n ring c)
        → Leads n k (r >>= λ q. some (record { ring = q.0; prod = s.prod; cons = q.1 }))
    go none h = absurd h
    go (some (ring, c)) h =
        (_, refl, record { few = inv.few; small = inv.small; holds = h.0; prod = h.1; cons = h.2 })

pub run_schedule-Inv :
    {n k : ℕ} (ts : List Thread) {s : System} → Inv n k s → Leads n k (run_schedule n s ts)
unfolding run_schedule
run_schedule-Inv [] {s} inv = (s, refl, inv)
run_schedule-Inv (t ∷ ts) {s} inv =
    let (s', e, inv') = step-Inv s t inv in
    let (s'', e', inv'') = run_schedule-Inv ts inv' in (s'', rw e e', inv'')

-- On a ring that `init_ring` made for less than 2 ^ 61 cells, with less than 2 ^ 64 items to send:
-- under every schedule the two threads run without an access outside `buf`, the consumer's check
-- that the values come in order never fails, and the indices stay at most a capacity apart.
pub two_threads_fifo :
    (malloc : ℕ → Option (List ℕ)) (capacity n : ℕ) {ring : Ring} (ts : List Thread)
    → Sized malloc
    → capacity < 2 ^ 61
    → n < word
    → init_ring malloc capacity ≡ some ring
    → (s : System) × (run_schedule n (start ring) ts ≡ some s)
      × (s.cons ≢ Consumer.failed)
      × (s.ring.tail ≤ s.ring.head)
      × (s.ring.head ≤ s.ring.tail + capacity)
two_threads_fifo malloc capacity n {ring} ts sized small few e =
    let (k, v, c, h, t) = init_ring-IsValid malloc capacity sized small e in
    let (s, runs, inv) = run_schedule-Inv ts (start-Inv few v h t) in
    (
      s,
      runs,
      λ f. subst (Releases n s.ring) f inv.cons,
      inv.holds.order,
      omega (arith, inv.holds.room, v.power),
    )

-- In every state that satisfies the invariant of the threads, a cell that the producer is about to
-- store to is not the one that the consumer is about to read.
slots_apart :
    {n k : ℕ} {s : System} {i head tail j t h : ℕ}
    → Inv n k s
    → s.prod ≡ Producer.got_tail i head tail
    → s.cons ≡ Consumer.got_head j t h
    → sub64 head tail ≢ s.ring.capacity
    → h ≢ t
    → bit_and head s.ring.mask ≢ bit_and t s.ring.mask
slots_apart {n} {k} {s} {i} {head} {tail} {j} {t} {h} inv ep ec free more e =
    let p = subst (Publishes n k s.ring) ep inv.prod in
    let c = subst (Releases n s.ring) ec inv.cons in
    slot-distinct k t head (omega arith)
      (omega (arith, inv.holds.power, inv.holds.order, two_pow_mono k 60 inv.small, inv.few))
      (sym (slot_of head inv.holds) ∙ e ∙ slot_of t inv.holds)

-- From `start` on a ring that `init_ring` made, in every state that a schedule leads to: a cell
-- that the producer is about to store to is not the one that the consumer is about to read.
pub no_shared_cell :
    (malloc : ℕ → Option (List ℕ)) (capacity n : ℕ) {ring : Ring} (ts : List Thread) (s : System)
    (i head tail j t h : ℕ)
    → Sized malloc
    → capacity < 2 ^ 61
    → n < word
    → init_ring malloc capacity ≡ some ring
    → run_schedule n (start ring) ts ≡ some s
    → s.prod ≡ Producer.got_tail i head tail
    → sub64 head tail ≢ s.ring.capacity
    → s.cons ≡ Consumer.got_head j t h
    → h ≢ t
    → bit_and head s.ring.mask ≢ bit_and t s.ring.mask
no_shared_cell malloc capacity n {ring} ts s i head tail j t h sized small few e runs ep free ec
      more =
    let (k, v, c, h0, t0) = init_ring-IsValid malloc capacity sized small e in
    let (s', runs', inv) = run_schedule-Inv ts (start-Inv few v h0 t0) in
    let same : s' ≡ s = cc (runs', runs) in slots_apart (subst (Inv n k) same inv) ep ec free more
