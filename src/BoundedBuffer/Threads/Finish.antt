-- ===== src/BoundedBuffer/Threads/Finish.antt =====
-- Every run of the six threads, and what it comes to.
use systems_drills.Base.{
  ℕ, zero, suc, ◌+◌, ◌*◌, ◌^◌, ◌≤◌, ◌<◌, ◌≡◌, ◌⊎◌, inl, inr, refl, sym, ap, ◌∙◌, subst, false, ◌&&◌,
  some, List, [], ◌∷◌, arith, leb, ltb, length-replicate, get_or, replicate, ℕ_discrete,
}
use systems_drills.BoundedBuffer.{Bq}
use systems_drills.BoundedBuffer.Refine.{IsValid, slots}
use systems_drills.BoundedBuffer.Threads.{System, Turn, turn, run_turns, start}
use systems_drills.BoundedBuffer.Threads.Sums.{one_if, sum_by, All, one_or_none}
use systems_drills.BoundedBuffer.Threads.Invariant.{
  tally, got, put_by, can_put, asleep_put, asleep_in_get, Inv, Keeps, put_all, once,
}
use systems_drills.BoundedBuffer.Threads.Put.{producer_turn-Keeps, interrupt_put-Keeps}
use systems_drills.BoundedBuffer.Threads.Get.{consumer_turn-Keeps, interrupt_get-Keeps}
use systems_drills.BoundedBuffer.Threads.Ending.{
  can_get, SomeoneRuns, ProducerEnded, ConsumerEnded, Ended, stuck_ready_put, stuck_put, put_le,
  put_ge, stuck_ready_get, stuck_get, got_ge, got_lt, no_hands, put_by-ended,
}

-- Turns of the six threads of `main`.
abbrev pub IsThread : Turn → Type 0
IsThread (Turn.produce k pick) = k < 3
IsThread (Turn.consume k pick) = k < 3
IsThread (Turn.interrupt_producer k) = k < 3
IsThread (Turn.interrupt_consumer k) = k < 3

turn-Keeps : (s : System) (t : Turn) → Inv s → IsThread t → Keeps s.n (turn s t)
unfolding turn
turn-Keeps s (Turn.produce k pick) inv lt = producer_turn-Keeps s k pick inv lt
turn-Keeps s (Turn.consume k pick) inv lt = consumer_turn-Keeps s k pick inv lt
turn-Keeps s (Turn.interrupt_producer k) inv lt = interrupt_put-Keeps s k inv lt
turn-Keeps s (Turn.interrupt_consumer k) inv lt = interrupt_get-Keeps s k inv lt

run_turns-Keeps :
    (s : System) (ts : List Turn) → Inv s → All IsThread ts → Keeps s.n (run_turns s ts)
unfolding run_turns
run_turns-Keeps s [] inv ok = (s, refl, inv, refl)
run_turns-Keeps s (t ∷ ts) inv ok =
    let (s1, e, inv1, n1) = turn-Keeps s t inv ok.0 in
    let (s2, f, inv2, n2) = run_turns-Keeps s1 ts inv1 ok.1 in (s2, (rw e) ∙ f, inv2, n2 ∙ n1)

get_or-zeros : (m v : ℕ) → get_or (replicate {A = ℕ} m 0) v 0 ≡ 0
get_or-zeros zero v = refl
get_or-zeros (suc m) zero = refl
get_or-zeros (suc m) (suc v) = get_or-zeros m v

start-Inv : (q : Bq) (n : ℕ) → IsValid q → q.count ≡ 0 → 3 * n ≤ 2 ^ 31 → Inv (start q n)
start-Inv q n v e fits = record {
  q_valid = v;
  fits = fits;
  p_ok = (
    (omega arith, omega arith, λ a. cc),
    ((omega arith, omega arith, λ a. cc), ((omega arith, omega arith, λ a. cc), tt)),
  );
  three_producers = refl;
  numbered = refl;
  c_ok = (omega arith, (omega arith, (omega arith, tt)));
  three_consumers = refl;
  seen_size = length-replicate (3 * n) 0;
  flow = λ y. omega (
    arith,
    get_or-zeros (3 * n) y,
    ap (λ m. tally y (slots q.buf q.cap q.tail m)) e,
    none_put (0 * n) y,
    none_put (1 * n) y,
    none_put (2 * n) y,
  );
  total = omega (arith, e);
  p_sleeps = λ z. absurd (z refl);
  c_sleeps = λ z. absurd (z refl);
}
  where
    none_put : (a y : ℕ) → one_if (leb a y && ltb y (a + 0)) ≡ 0
    none_put a y = ground arith

module _ (s : System) (inv : Inv s) where
  producers_put : sum_by put_by s.producers ≤ 3 * s.n
  producers_put =
      subst (λ l. sum_by put_by s.producers ≤ l * s.n) inv.three_producers
        (put_le s.n s.producers inv.p_ok)

  consumers_got : All (ConsumerEnded s.n) s.consumers → 3 * s.n ≤ sum_by got s.consumers
  consumers_got ended =
      subst (λ l. l * s.n ≤ sum_by got s.consumers) inv.three_consumers
        (got_ge s.n s.consumers ended)

  -- Everybody is stuck: then nobody sleeps.
  stuck_producers :
      All (λ p. can_put s.n p ≡ false) s.producers
      → All (λ c. can_get s.n c ≡ false) s.consumers
      → sum_by asleep_put s.producers ≡ 0
  stuck_producers ps cs = elim (ℕ_discrete (sum_by asleep_put s.producers) 0) [
    | yes z ↦ z
    | no asleep ↦
        let full = inv.p_sleeps asleep in
        let idle = stuck_ready_put s.n s.producers ps in
        elim (ℕ_discrete (sum_by asleep_in_get s.consumers) 0) [
          | yes z ↦ absurd (
              omega (
                arith,
                full,
                idle,
                inv.q_valid.tail_in,
                consumers_got (stuck_get s.n s.consumers cs z),
                producers_put,
                inv.total,
              ))
          | no both ↦ absurd (
              omega (
                arith,
                full,
                idle,
                inv.q_valid.tail_in,
                inv.c_sleeps both,
                stuck_ready_get s.n s.consumers cs,
              ))
        ]
  ]

  stuck_consumers :
      All (ProducerEnded s.n) s.producers
      → All (λ c. can_get s.n c ≡ false) s.consumers
      → sum_by asleep_in_get s.consumers ≡ 0
  stuck_consumers ended cs = elim (ℕ_discrete (sum_by asleep_in_get s.consumers) 0) [
    | yes z ↦ z
    | no asleep ↦ absurd (
        omega (
          arith,
          inv.c_sleeps asleep,
          stuck_ready_get s.n s.consumers cs,
          inv.total,
          subst (λ l. sum_by got s.consumers < l * s.n) inv.three_consumers
              (got_lt s.n s.consumers inv.c_ok asleep),
          subst (λ l. l * s.n ≤ sum_by put_by s.producers) inv.three_producers
              (put_ge s.n s.producers ended),
        ))
  ]

  Inv-goes_on : Ended s ⊎ SomeoneRuns s
  Inv-goes_on = elim (one_or_none (can_put s.n) s.producers) [
    | inl runs ↦ inr (inl runs)
    | inr ps ↦ elim (one_or_none (can_get s.n) s.consumers) [
      | inl runs ↦ inr (inr runs)
      | inr cs ↦
          let ended = stuck_put s.n s.producers ps (stuck_producers ps cs) in
          inl (ended, stuck_get s.n s.consumers cs (stuck_consumers ended cs))
    ]
  ]

  Ended-seen : Ended s → (v : ℕ) → v < 3 * s.n → get_or s.seen v 0 ≡ 1
  Ended-seen ended v lt = omega (
    arith,
    inv.flow v,
    no_hands s.n v s.consumers ended.1,
    ap (λ m. tally v (slots s.q.buf s.q.cap s.q.tail m)) none_left,
    put_by-ended s.n v s.producers inv.p_ok ended.0,
    ap (put_all s.n v) inv.numbered,
    once s.n v lt,
  )
    where
      none_left : s.q.count ≡ 0
      none_left = omega (arith, consumers_got ended.1, producers_put, inv.total)

-- From an empty valid queue, with at most 2 ^ 31 values in all, every interleaving of the turns of
-- the three producers and the three consumers runs, whichever thread a signal wakes and whichever
-- waits end by themselves: no access is outside `buf` or `seen` and no int overflows. If the loops
-- of all six have ended, every value below 3 * n has been seen exactly once.
pub run_turns-seen_once :
    (q : Bq) (n : ℕ) (ts : List Turn)
    → IsValid q
    → q.count ≡ 0
    → 3 * n ≤ 2 ^ 31
    → All IsThread ts
    → (s : System) × (run_turns (start q n) ts ≡ some s)
      × (Ended s → (v : ℕ) → v < 3 * n → get_or s.seen v 0 ≡ 1)
run_turns-seen_once q n ts v e fits ok =
    let (s, run, inv, same) = run_turns-Keeps (start q n) ts (start-Inv q n v e fits) ok in
    (s, run, λ ended y lt. Ended-seen s inv ended y (subst (λ m. y < 3 * m) (sym same) lt))

-- No deadlock and no lost wake-up: from an empty valid queue, with at most 2 ^ 31 values in all,
-- every interleaving of the turns of the six threads runs to a state in which the loops of all six
-- have ended or one of the threads is awake with something left to do, so never do the threads
-- that have not ended all sleep.
pub run_turns-SomeoneRuns :
    (q : Bq) (n : ℕ) (ts : List Turn)
    → IsValid q
    → q.count ≡ 0
    → 3 * n ≤ 2 ^ 31
    → All IsThread ts
    → (s : System) × (run_turns (start q n) ts ≡ some s) × (Ended s ⊎ SomeoneRuns s)
run_turns-SomeoneRuns q n ts v e fits ok =
    let (s, run, inv, same) = run_turns-Keeps (start q n) ts (start-Inv q n v e fits) ok in
    (s, run, Inv-goes_on s inv)
