-- ===== src/BoundedBuffer/Threads/Put.antt =====
-- The turns of a producer keep the invariant.
use systems_drills.Base.{
  ℕ, ◌+◌, ◌<◌, ◌≤◌, ◌≡◌, ◌≢◌, inl, inr, refl, ap, ◌∙◌, Bool, true, false, some, List, arith, ltb,
  ltb→lt, lt→ltb, length-set, get_elem?, get_elem?-eq-get_or, set, ℕ_discrete, Bool-cases, ◌==◌,
}
use systems_drills.BoundedBuffer.Refine.{
  contents, after_put, bq_put-full, bq_put-stores, after_put-IsValid, contents-put,
}
use systems_drills.BoundedBuffer.Threads.{
  Producer, Consumer, Place, System, before_get, asleep_get, recording, writing, at_sleeps,
  sleeps_get, wake_get, wake_put, signal, value_of, producer_turn, interrupt_put,
}
use systems_drills.BoundedBuffer.Threads.Sums.{
  one_if, sum_by, sum_by-set, All-get, All-set, map-set, Signalled, signal-Signalled,
  Signalled-sum_by, Signalled-All, Signalled-length, Signalled-ready,
}
use systems_drills.BoundedBuffer.Threads.Invariant.{
  tally, tally-snoc, has_put, has_put-step, in_hand, hand, got_at, got, put_by, ready_put, ready_at,
  ready_get, asleep_put, ProducerOk, PlaceOk, ConsumerOk, Inv, Keeps, value_of_eq,
}

-- Waking a consumer.
pub PlaceOk-wake :
    (n i : ℕ) (at : Place) → at_sleeps at ≡ true → PlaceOk n i at → PlaceOk n i before_get
PlaceOk-wake n i before_get e ok = ok
PlaceOk-wake n i asleep_get e ok = omega (arith, ok)
PlaceOk-wake n i (recording v) e ok = cc
PlaceOk-wake n i (writing v old) e ok = cc

pub in_hand-wake : (y : ℕ) (at : Place) → at_sleeps at ≡ true → 0 ≡ in_hand y at
in_hand-wake y before_get e = refl
in_hand-wake y asleep_get e = refl
in_hand-wake y (recording v) e = cc
in_hand-wake y (writing v old) e = cc

pub got_at-wake : (i : ℕ) (at : Place) → at_sleeps at ≡ true → i ≡ got_at i at
got_at-wake i before_get e = refl
got_at-wake i asleep_get e = refl
got_at-wake i (recording v) e = cc
got_at-wake i (writing v old) e = cc

pub ready_at-wake :
    (n i : ℕ) (at : Place)
    → PlaceOk n i at
    → at_sleeps at ≡ true
    → one_if (ltb i n) ≡ ready_at n i at + 1
ready_at-wake n i before_get ok e = cc
ready_at-wake n i asleep_get ok e = ap one_if (lt→ltb i n ok)
ready_at-wake n i (recording v) ok e = cc
ready_at-wake n i (writing v old) ok e = cc

module _ (s : System) (inv : Inv s) (k : ℕ) (p : Producer)
    (at : get_elem? s.producers k ≡ some p) where
  ok : ProducerOk s.n p
  ok = All-get (ProducerOk s.n) k s.producers p inv.p_ok at

  -- Only whether the producer sleeps changes.
  rest-Inv :
      (asleep : Bool)
      → (asleep ≡ true → p.i < s.n)
      → (sum_by asleep_put (set s.producers k (record p { asleep = asleep })) ≢ 0
          → s.q.cap
            ≤ s.q.count + sum_by (ready_put s.n) (set s.producers k (record p { asleep = asleep })))
      → Inv (record s { producers = set s.producers k (record p { asleep = asleep }) })
  rest-Inv asleep sleeps_ok sleeps = record {
    q_valid = inv.q_valid;
    fits = inv.fits;
    p_ok = All-set (ProducerOk s.n) k s.producers new inv.p_ok (ok.0, ok.1, sleeps_ok);
    three_producers = length-set s.producers k new ∙ inv.three_producers;
    numbered = map-set (λ (r : Producer). r.id) k s.producers p new at refl ∙ inv.numbered;
    c_ok = inv.c_ok;
    three_consumers = inv.three_consumers;
    seen_size = inv.seen_size;
    flow = λ y. omega (arith, inv.flow y, sum_by-set (has_put s.n y) k s.producers p new at);
    total = omega (arith, inv.total, sum_by-set put_by k s.producers p new at);
    p_sleeps = sleeps;
    c_sleeps = inv.c_sleeps;
  }
    where
      new : Producer
      new = record p { asleep = asleep }

  sleep-Keeps :
      (pick : ℕ)
      → p.asleep ≡ false
      → ltb p.i s.n ≡ true
      → s.q.count ≡ s.q.cap
      → Keeps s.n (producer_turn s k pick)
  unfolding producer_turn
  sleep-Keeps pick awake going full = (
    record s { producers = set s.producers k (record p { asleep = true }) },
    rw (at, awake, going, bq_put-full s.q (value_of s.n p) full) refl,
    rest-Inv true (λ _. ltb→lt p.i s.n going) (λ _. omega (arith, full)),
    refl,
  )

  pub wake-Keeps : p.asleep ≡ true → Keeps s.n (interrupt_put s k)
  unfolding interrupt_put
  wake-Keeps asleep = (
    record s { producers = set s.producers k (wake_put p) },
    rw (at, asleep) refl,
    rest-Inv false (λ e. cc)
        (λ still. omega (
          arith,
          inv.p_sleeps
              (λ z. omega (arith, z, sum_by-set asleep_put k s.producers p (wake_put p) at, still)),
          sum_by-set (ready_put s.n) k s.producers p (wake_put p) at,
          not_ready,
        )),
    refl,
  )
    where
      not_ready : ready_put s.n p ≡ 0
      not_ready = rw asleep refl

  put-Inv :
      (consumers : List Consumer)
      → Signalled sleeps_get wake_get s.consumers consumers
      → p.asleep ≡ false
      → p.i < s.n
      → s.q.count ≢ s.q.cap
      → Inv (record s {
        q = after_put s.q (value_of s.n p);
        producers = set s.producers k (record p { i = p.i + 1 });
        consumers = consumers;
      })
  put-Inv consumers h awake lt room = record {
    q_valid = after_put-IsValid s.q x inv.q_valid room;
    fits = inv.fits;
    p_ok =
        All-set (ProducerOk s.n) k s.producers new inv.p_ok
          (ok.0, omega (arith, lt), λ e. absurd (cc (e, awake)));
    three_producers = length-set s.producers k new ∙ inv.three_producers;
    numbered = map-set (λ (r : Producer). r.id) k s.producers p new at refl ∙ inv.numbered;
    c_ok =
        Signalled-All sleeps_get wake_get s.consumers consumers h (ConsumerOk s.n)
          (λ c e good. PlaceOk-wake s.n c.i c.at e good) inv.c_ok;
    three_consumers =
        Signalled-length sleeps_get wake_get s.consumers consumers h ∙ inv.three_consumers;
    seen_size = inv.seen_size;
    flow = λ y. omega (
      arith,
      inv.flow y,
      Signalled-sum_by sleeps_get wake_get s.consumers consumers h (hand y)
          (λ c e. in_hand-wake y c.at e),
      ap (tally y) (contents-put s.q x inv.q_valid room),
      tally-snoc y x (contents s.q),
      ap (λ z. one_if (y == z)) (value_of_eq s inv p ok lt),
      sum_by-set (has_put s.n y) k s.producers p new at,
      has_put-step s.n y p,
    );
    total = omega (
      arith,
      inv.total,
      Signalled-sum_by sleeps_get wake_get s.consumers consumers h got
          (λ c e. got_at-wake c.i c.at e),
      sum_by-set put_by k s.producers p new at,
    );
    p_sleeps = λ still. omega (
      arith,
      inv.p_sleeps (λ z. omega (arith, z, sum_by-set asleep_put k s.producers p new at, still)),
      sum_by-set (ready_put s.n) k s.producers p new at,
      one_at_most p,
    );
    c_sleeps = λ still.
        let (before, more) =
          Signalled-ready sleeps_get wake_get s.consumers consumers h (ConsumerOk s.n)
            (ready_get s.n) inv.c_ok (λ c good e. ready_at-wake s.n c.i c.at good e) still in
        omega (arith, inv.c_sleeps before, more);
  }
    where
      x : ℕ
      x = value_of s.n p

      new : Producer
      new = record p { i = p.i + 1 }

      one_at_most : (r : Producer) → ready_put s.n r ≤ 1
      one_at_most r = ground arith

  put-Keeps :
      (pick : ℕ)
      → p.asleep ≡ false
      → ltb p.i s.n ≡ true
      → s.q.count ≢ s.q.cap
      → Keeps s.n (producer_turn s k pick)
  unfolding producer_turn
  put-Keeps pick awake going room = (
    record s {
      q = after_put s.q (value_of s.n p);
      producers = set s.producers k (record p { i = p.i + 1 });
      consumers = signal sleeps_get wake_get pick s.consumers;
    },
    rw (at, awake, going, bq_put-stores s.q (value_of s.n p) inv.q_valid room) refl,
    put-Inv (signal sleeps_get wake_get pick s.consumers)
        (signal-Signalled sleeps_get wake_get pick s.consumers) awake (ltb→lt p.i s.n going) room,
    refl,
  )

  pub stay-Keeps : (pick : ℕ) → p.asleep ≡ true → Keeps s.n (producer_turn s k pick)
  unfolding producer_turn
  stay-Keeps pick asleep = (s, rw (at, asleep) refl, inv, refl)

  pub ended-Keeps :
      (pick : ℕ) → p.asleep ≡ false → ltb p.i s.n ≡ false → Keeps s.n (producer_turn s k pick)
  unfolding producer_turn
  ended-Keeps pick awake ended = (s, rw (at, awake, ended) refl, inv, refl)

  pub awake-Keeps : p.asleep ≡ false → Keeps s.n (interrupt_put s k)
  unfolding interrupt_put
  awake-Keeps awake = (s, rw (at, awake) refl, inv, refl)

nobody : Producer
nobody = record { id = 0; i = 0; asleep = false }

some_producer :
    (s : System) (k : ℕ) → Inv s → k < 3 → (p : Producer) × (get_elem? s.producers k ≡ some p)
some_producer s k inv lt =
    (_, get_elem?-eq-get_or s.producers k nobody (omega (arith, inv.three_producers)))

-- A turn of a producer that is there returns, and keeps the invariant.
pub producer_turn-Keeps :
    (s : System) (k pick : ℕ) → Inv s → k < 3 → Keeps s.n (producer_turn s k pick)
producer_turn-Keeps s k pick inv lt =
    let (p, at) = some_producer s k inv lt in
    elim (Bool-cases p.asleep) [
      | inl asleep ↦ stay-Keeps s inv k p at pick asleep
      | inr awake ↦ elim (Bool-cases (ltb p.i s.n)) [
        | inr ended ↦ ended-Keeps s inv k p at pick awake ended
        | inl going ↦ elim (ℕ_discrete s.q.count s.q.cap) [
          | yes full ↦ sleep-Keeps s inv k p at pick awake going full
          | no room ↦ put-Keeps s inv k p at pick awake going room
        ]
      ]
    ]

pub interrupt_put-Keeps : (s : System) (k : ℕ) → Inv s → k < 3 → Keeps s.n (interrupt_put s k)
interrupt_put-Keeps s k inv lt =
    let (p, at) = some_producer s k inv lt in
    elim (Bool-cases p.asleep) [
      | inl asleep ↦ wake-Keeps s inv k p at asleep
      | inr awake ↦ awake-Keeps s inv k p at awake
    ]
