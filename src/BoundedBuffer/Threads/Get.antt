-- ===== src/BoundedBuffer/Threads/Get.antt =====
-- The turns of a consumer keep the invariant.
use systems_drills.Base.{
  ℕ, ◌+◌, ◌*◌, ◌<◌, ◌≤◌, ◌≡◌, ◌≢◌, inl, inr, refl, sym, ap, ◌∙◌, subst, true, false, some, List,
  arith, ◌==◌, ==_iff, ==_ne, ltb, ltb→lt, lt→ltb, length-set, get_elem?, get_or,
  get_elem?-eq-get_or, get_or-set_self, get_or-set_ne, set, store?-eq-set, ℕ_discrete, Bool-cases,
}
use systems_drills.BoundedBuffer.Refine.{
  after_get, bq_get-empty, bq_get-takes, after_get-IsValid, contents-cons,
}
use systems_drills.BoundedBuffer.Threads.{
  Producer, Consumer, Place, System, before_get, asleep_get, recording, writing, at_sleeps,
  wake_get, sleeps_put, wake_put, signal, consume_from, consumer_turn, interrupt_get,
}
use systems_drills.BoundedBuffer.Threads.Sums.{
  one_if, sum_by, sum_by-set, sum_by_ge, All-get, All-set, Signalled, signal-Signalled,
  Signalled-sum_by, Signalled-All, Signalled-length, Signalled-map, Signalled-ready,
}
use systems_drills.BoundedBuffer.Threads.Invariant.{
  tally, has_put, in_hand, hand, got_at, got, put_by, ready_put, ready_at, ready_get, asleep_in_get,
  ProducerOk, PlaceOk, ConsumerOk, Inv, Keeps, put_once, put_small, seen_index_eq,
}
use systems_drills.BoundedBuffer.Threads.Put.{
  PlaceOk-wake, in_hand-wake, got_at-wake, ready_at-wake,
}

-- Waking a producer.
ready_put-wake :
    (n : ℕ) (p : Producer)
    → ProducerOk n p
    → sleeps_put p ≡ true
    → ready_put n (wake_put p) ≡ ready_put n p + 1
ready_put-wake n p ok asleep = omega (arith, now, before)
  where
    now : ready_put n (wake_put p) ≡ 1
    now = rw (lt→ltb p.i n (ok.2 asleep)) refl

    before : ready_put n p ≡ 0
    before = rw asleep refl

module _ (s : System) (inv : Inv s) (k : ℕ) (c : Consumer)
    (at : get_elem? s.consumers k ≡ some c) where
  place_ok : (a : Place) → c.at ≡ a → PlaceOk s.n c.i a
  place_ok a e = subst (PlaceOk s.n c.i) e (All-get (ConsumerOk s.n) k s.consumers c inv.c_ok at)

  -- The consumer is in another place with the same values.
  moved-Inv :
      (a : Place)
      → PlaceOk s.n c.i a
      → ((y : ℕ) → in_hand y a ≡ in_hand y c.at)
      → got_at c.i a ≡ got_at c.i c.at
      → (sum_by asleep_in_get (set s.consumers k (record c { at = a })) ≢ 0
          → s.q.count ≤ sum_by (ready_get s.n) (set s.consumers k (record c { at = a })))
      → Inv (record s { consumers = set s.consumers k (record c { at = a }) })
  moved-Inv a ok same_hand same_got sleeps = record {
    q_valid = inv.q_valid;
    fits = inv.fits;
    p_ok = inv.p_ok;
    three_producers = inv.three_producers;
    numbered = inv.numbered;
    c_ok = All-set (ConsumerOk s.n) k s.consumers new inv.c_ok ok;
    three_consumers = length-set s.consumers k new ∙ inv.three_consumers;
    seen_size = inv.seen_size;
    flow = λ y. omega (arith, inv.flow y, sum_by-set (hand y) k s.consumers c new at, same_hand y);
    total = omega (arith, inv.total, sum_by-set got k s.consumers c new at, same_got);
    p_sleeps = inv.p_sleeps;
    c_sleeps = sleeps;
  }
    where
      new : Consumer
      new = record c { at = a }

  sleep-Keeps :
      (pick : ℕ)
      → c.at ≡ before_get
      → ltb c.i s.n ≡ true
      → s.q.count ≡ 0
      → Keeps s.n (consume_from before_get s k c pick)
  unfolding consume_from
  sleep-Keeps pick e going empty = (
    record s { consumers = set s.consumers k (record c { at = asleep_get }) },
    rw (going, bq_get-empty s.q empty) refl,
    moved-Inv asleep_get (ltb→lt c.i s.n going) (λ y. ap (in_hand y) (sym e))
        (ap (got_at c.i) (sym e)) (λ _. omega (arith, empty)),
    refl,
  )

  pub wake-Keeps : at_sleeps c.at ≡ true → Keeps s.n (interrupt_get s k)
  unfolding interrupt_get
  wake-Keeps asleep = (
    record s { consumers = set s.consumers k (wake_get c) },
    rw (at, asleep) refl,
    moved-Inv before_get (PlaceOk-wake s.n c.i c.at asleep (place_ok c.at refl))
        (λ y. in_hand-wake y c.at asleep) (got_at-wake c.i c.at asleep)
        (λ still. omega (
          arith,
          inv.c_sleeps
              (λ z. omega (arith, z, sum_by_ge asleep_in_get k s.consumers c at, ap one_if asleep)),
          sum_by-set (ready_get s.n) k s.consumers c (wake_get c) at,
          ready_at-wake s.n c.i c.at (place_ok c.at refl) asleep,
        )),
    refl,
  )

  pub awake-Keeps : at_sleeps c.at ≡ false → Keeps s.n (interrupt_get s k)
  unfolding interrupt_get
  awake-Keeps awake = (s, rw (at, awake) refl, inv, refl)

  -- A value in a hand was put, and is not counted in `seen` yet.
  held : (y : ℕ) → hand y c ≡ 1 → (y < 3 * s.n) × (get_or s.seen y 0 ≡ 0)
  held y e = (
    put_small s inv y (λ z. omega (arith, z, inv.flow y, in_sum)),
    omega (arith, inv.flow y, in_sum, put_once s inv y),
  )
    where
      in_sum : 1 ≤ sum_by (hand y) s.consumers
      in_sum = omega (arith, sum_by_ge (hand y) k s.consumers c at, e)

  self : (v : ℕ) → one_if (v == v) ≡ 1
  self v = ap one_if ((==_iff v v).1 refl)

  read-Keeps : (pick v : ℕ) → c.at ≡ recording v → Keeps s.n (consume_from (recording v) s k c pick)
  unfolding consume_from
  read-Keeps pick v e =
      let (small, unseen) = held v (ap (in_hand v) e ∙ self v) in
      (
        record s { consumers = set s.consumers k (new) },
        rw
            (
              seen_index_eq s inv v small,
              get_elem?-eq-get_or s.seen v 0 (omega (arith, inv.seen_size, small)),
            )
            refl,
        moved-Inv (writing v (get_or s.seen v 0)) (place_ok (recording v) e, unseen)
            (λ y. ap (in_hand y) (sym e)) (ap (got_at c.i) (sym e))
            (λ still. omega (
              arith,
              inv.c_sleeps
                  (λ z. omega (arith, z, still, sum_by-set asleep_in_get k s.consumers c new at)),
              sum_by-set (ready_get s.n) k s.consumers c new at,
              ap (ready_at s.n c.i) e,
            )),
        refl,
      )
    where
      new : Consumer
      new = record c { at = writing v (get_or s.seen v 0) }

  written-Inv :
      (v old : ℕ)
      → c.at ≡ writing v old
      → Inv (record s {
        seen = set s.seen v 1;
        consumers = set s.consumers k (record { i = c.i + 1; at = before_get });
      })
  written-Inv v old e = record {
    q_valid = inv.q_valid;
    fits = inv.fits;
    p_ok = inv.p_ok;
    three_producers = inv.three_producers;
    numbered = inv.numbered;
    c_ok =
        All-set (ConsumerOk s.n) k s.consumers new inv.c_ok
          (omega (arith, (place_ok (writing v old) e).0));
    three_consumers = length-set s.consumers k new ∙ inv.three_consumers;
    seen_size = length-set s.seen v 1 ∙ inv.seen_size;
    flow = λ y. omega (
      arith,
      inv.flow y,
      sum_by-set (hand y) k s.consumers c new at,
      ap (in_hand y) e,
      one_more y,
    );
    total = omega (arith, inv.total, sum_by-set got k s.consumers c new at, ap (got_at c.i) e);
    p_sleeps = inv.p_sleeps;
    c_sleeps = λ still. omega (
      arith,
      inv.c_sleeps (λ z. omega (arith, z, still, sum_by-set asleep_in_get k s.consumers c new at)),
      sum_by-set (ready_get s.n) k s.consumers c new at,
      ap (ready_at s.n c.i) e,
    );
  }
    where
      new : Consumer
      new = record { i = c.i + 1; at = before_get }

      one_more : (y : ℕ) → get_or (set s.seen v 1) y 0 ≡ get_or s.seen y 0 + one_if (y == v)
      one_more y =
          let (small, unseen) = held v (ap (in_hand v) e ∙ self v) in
          elim (ℕ_discrete v y) [
            | yes same ↦ omega (
              arith,
              subst (λ z. get_or (set s.seen v 1) z 0 ≡ 1) same
                  (get_or-set_self s.seen v 1 0 (omega (arith, inv.seen_size, small))),
              subst (λ z. get_or s.seen z 0 ≡ 0) same unseen,
              subst (λ z. one_if (z == v) ≡ 1) same (self v),
            )
            | no ne ↦
                omega
                  (arith, get_or-set_ne s.seen v y 1 0 ne, ap one_if (==_ne y v (λ p. ne (sym p))))
          ]

  write-Keeps :
      (pick v old : ℕ) → c.at ≡ writing v old → Keeps s.n (consume_from (writing v old) s k c pick)
  unfolding consume_from
  write-Keeps pick v old e =
      let (small, unseen) = held v (ap (in_hand v) e ∙ self v) in
      (
        _,
        rw
            (
              seen_index_eq s inv v small,
              (place_ok (writing v old) e).1,
              store?-eq-set s.seen v 1 (omega (arith, inv.seen_size, small)),
            )
            refl,
        written-Inv v old e,
        refl,
      )

  take-Inv :
      (producers : List Producer)
      → Signalled sleeps_put wake_put s.producers producers
      → c.at ≡ before_get
      → c.i < s.n
      → s.q.count ≢ 0
      → Inv (record s {
        q = after_get s.q;
        consumers = set s.consumers k (record c { at = recording (get_or s.q.buf s.q.tail 0) });
        producers = producers;
      })
  take-Inv producers h e lt some_in = record {
    q_valid = after_get-IsValid s.q inv.q_valid some_in;
    fits = inv.fits;
    p_ok =
        Signalled-All sleeps_put wake_put s.producers producers h (ProducerOk s.n)
          (λ p asleep ok. (ok.0, ok.1, λ q. cc)) inv.p_ok;
    three_producers =
        Signalled-length sleeps_put wake_put s.producers producers h ∙ inv.three_producers;
    numbered =
        Signalled-map sleeps_put wake_put s.producers producers h (λ (p : Producer). p.id)
          (λ p. refl)
        ∙ inv.numbered;
    c_ok = All-set (ConsumerOk s.n) k s.consumers new inv.c_ok lt;
    three_consumers = length-set s.consumers k new ∙ inv.three_consumers;
    seen_size = inv.seen_size;
    flow = λ y. omega (
      arith,
      inv.flow y,
      ap (tally y) (contents-cons s.q some_in),
      sum_by-set (hand y) k s.consumers c new at,
      ap (in_hand y) e,
      Signalled-sum_by sleeps_put wake_put s.producers producers h (has_put s.n y) (λ p a. refl),
    );
    total = omega (
      arith,
      inv.total,
      some_in,
      sum_by-set got k s.consumers c new at,
      ap (got_at c.i) e,
      Signalled-sum_by sleeps_put wake_put s.producers producers h put_by (λ p a. refl),
    );
    p_sleeps = λ still.
        let (before, more) =
          Signalled-ready sleeps_put wake_put s.producers producers h (ProducerOk s.n)
            (ready_put s.n) inv.p_ok (λ p ok a. ready_put-wake s.n p ok a) still in
        omega (arith, inv.p_sleeps before, more, some_in);
    c_sleeps = λ still. omega (
      arith,
      inv.c_sleeps (λ z. omega (arith, z, still, sum_by-set asleep_in_get k s.consumers c new at)),
      sum_by-set (ready_get s.n) k s.consumers c new at,
      one_at_most c.i c.at,
      some_in,
    );
  }
    where
      new : Consumer
      new = record c { at = recording (get_or s.q.buf s.q.tail 0) }

      one_at_most : (i : ℕ) (a : Place) → ready_at s.n i a ≤ 1
      one_at_most i before_get = ground arith
      one_at_most i asleep_get = omega arith
      one_at_most i (recording v) = omega arith
      one_at_most i (writing v old) = omega arith

  take-Keeps :
      (pick : ℕ)
      → c.at ≡ before_get
      → ltb c.i s.n ≡ true
      → s.q.count ≢ 0
      → Keeps s.n (consume_from before_get s k c pick)
  unfolding consume_from
  take-Keeps pick e going some_in = (
    _,
    rw (going, bq_get-takes s.q inv.q_valid some_in) refl,
    take-Inv (signal sleeps_put wake_put pick s.producers)
        (signal-Signalled sleeps_put wake_put pick s.producers) e (ltb→lt c.i s.n going) some_in,
    refl,
  )

  ended-Keeps : (pick : ℕ) → ltb c.i s.n ≡ false → Keeps s.n (consume_from before_get s k c pick)
  unfolding consume_from
  ended-Keeps pick ended = (s, rw ended refl, inv, refl)

  stay-Keeps : (pick : ℕ) → Keeps s.n (consume_from asleep_get s k c pick)
  unfolding consume_from
  stay-Keeps pick = (s, refl, inv, refl)

  pub consume_from-Keeps : (pick : ℕ) (a : Place) → c.at ≡ a → Keeps s.n (consume_from a s k c pick)
  consume_from-Keeps pick before_get e = elim (Bool-cases (ltb c.i s.n)) [
    | inr ended ↦ ended-Keeps pick ended
    | inl going ↦ elim (ℕ_discrete s.q.count 0) [
      | yes empty ↦ sleep-Keeps pick e going empty
      | no some_in ↦ take-Keeps pick e going some_in
    ]
  ]
  consume_from-Keeps pick asleep_get e = stay-Keeps pick
  consume_from-Keeps pick (recording v) e = read-Keeps pick v e
  consume_from-Keeps pick (writing v old) e = write-Keeps pick v old e

  pub turn-Keeps : (pick : ℕ) → Keeps s.n (consumer_turn s k pick)
  unfolding consumer_turn
  turn-Keeps pick =
      let (s', e, inv', same) = consume_from-Keeps pick c.at refl in (s', rw at e, inv', same)

nobody : Consumer
nobody = record { i = 0; at = before_get }

some_consumer :
    (s : System) (k : ℕ) → Inv s → k < 3 → (c : Consumer) × (get_elem? s.consumers k ≡ some c)
some_consumer s k inv lt =
    (_, get_elem?-eq-get_or s.consumers k nobody (omega (arith, inv.three_consumers)))

-- A turn of a consumer that is there returns, and keeps the invariant.
pub consumer_turn-Keeps :
    (s : System) (k pick : ℕ) → Inv s → k < 3 → Keeps s.n (consumer_turn s k pick)
consumer_turn-Keeps s k pick inv lt =
    let (c, at) = some_consumer s k inv lt in turn-Keeps s inv k c at pick

pub interrupt_get-Keeps : (s : System) (k : ℕ) → Inv s → k < 3 → Keeps s.n (interrupt_get s k)
interrupt_get-Keeps s k inv lt =
    let (c, at) = some_consumer s k inv lt in
    elim (Bool-cases (at_sleeps c.at)) [
      | inl asleep ↦ wake-Keeps s inv k c at asleep
      | inr awake ↦ awake-Keeps s inv k c at awake
    ]
