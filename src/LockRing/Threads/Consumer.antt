-- ===== src/LockRing/Threads/Consumer.antt =====
-- The turns of the consumer keep the invariant.
use systems_drills.Base.{
  ℕ, suc, ◌+◌, ◌≡◌, inl, inr, refl, sym, ap, ◌∙◌, subst, Bool, true, false, arith, Bool-cases,
  ==_iff, zero,
}
use systems_drills.LockRing.Calls.{Holds, empty-yes, empty-no, take_out_lem}
use systems_drills.LockRing.Threads.{
  Place, System, before_lock, testing, asleep, ended, before_unlock, next_place, woken,
  consume_from,
}
use systems_drills.LockRing.Threads.Invariant.{
  InLock, count, RoundOk, Owner, nobody, producer_has, consumer_has, Inv, Keeps, count-woken,
  RoundOk-woken, woken_awake, count-next_place, RoundOk-next_place, next_place_out,
  next_place_awake, nobody_in, consumer_alone, Owner-woken_consumer, Owner-woken_producer,
}

module _ (k : ℕ) (s : System) (inv : Inv k s) where
  ok_at : (at : Place) → s.c_at ≡ at → RoundOk s.n s.c_i at
  ok_at at e = subst (RoundOk s.n s.c_i) e inv.c_ok

  alone : (at : Place) → s.c_at ≡ at → InLock at → ¬ InLock s.p_at
  alone at e in_lock = consumer_alone inv.owner (subst InLock (sym e) in_lock)

  -- The place, the round and the mutex change, the ring does not.
  moved-Inv :
      (locked : Bool) (i : ℕ) (at : Place)
      → count i at ≡ count s.c_i s.c_at
      → RoundOk s.n i at
      → Owner locked s.p_at at
      → (at ≡ asleep → inv.m ≡ 0)
      → Inv k (record s { locked = locked; c_i = i; c_at = at })
  moved-Inv locked i at same ok owner sleeps = record {
    m = inv.m;
    stored = subst (λ a. Holds k a inv.m s.ring) (sym same) inv.stored;
    flow = inv.flow ∙ ap (λ a. a + inv.m) (sym same);
    p_ok = inv.p_ok;
    c_ok = ok;
    owner = owner;
    p_sleeps = inv.p_sleeps;
    c_sleeps = sleeps;
  }

  pub interrupt_consumer-Inv : Inv k (record s { c_at = woken s.c_at })
  interrupt_consumer-Inv =
      moved-Inv s.locked s.c_i (woken s.c_at) (count-woken s.c_i s.c_at)
        (RoundOk-woken s.n s.c_i s.c_at inv.c_ok) (Owner-woken_consumer s.c_at inv.owner)
        (λ e. absurd (woken_awake s.c_at e))

  lock-Keeps : s.c_at ≡ before_lock → Keeps k s.n (consume_from before_lock s)
  unfolding consume_from
  lock-Keeps e = elim (Bool-cases s.locked) [
    | inl taken ↦ (s, rw taken refl, inv, refl)
    | inr free ↦ (
      record s { locked = true; c_at = testing },
      rw free refl,
      moved-Inv true s.c_i testing (ap (count s.c_i) (sym e)) (ok_at before_lock e)
          (consumer_has refl (nobody_in inv.owner free).0 tt) (λ q. cc),
      refl,
    )
  ]

  sleep-Keeps : s.c_at ≡ testing → inv.m ≡ 0 → Keeps k s.n (consume_from testing s)
  unfolding consume_from
  sleep-Keeps e is_empty = (
    record s { locked = false; c_at = asleep },
    rw (empty-yes inv.stored is_empty) refl,
    moved-Inv false s.c_i asleep (ap (count s.c_i) (sym e)) (ok_at testing e)
        (nobody refl (alone testing e tt) (λ b. b)) (λ _. is_empty),
    refl,
  )

  read-Keeps : (m : ℕ) → inv.m ≡ suc m → s.c_at ≡ testing → Keeps k s.n (consume_from testing s)
  unfolding consume_from
  read-Keeps m more e =
      let first : count s.c_i s.c_at ≡ s.c_i = ap (count s.c_i) e in
      let (ring, taken, h) = take_out_lem (
        subst (λ j. Holds k s.c_i j s.ring) more
          (subst (λ a. Holds k a inv.m s.ring) first inv.stored)) in
      (
        record s { ring = ring; c_at = before_unlock s.c_i; p_at = woken s.p_at },
        rw (empty-no inv.stored (λ z. absurd (omega (arith, z, more))), taken) refl,
        record {
          m = m;
          stored = h;
          flow = omega (arith, count-woken s.p_i s.p_at, inv.flow, first, more);
          p_ok = RoundOk-woken s.n s.p_i s.p_at inv.p_ok;
          c_ok = (ok_at testing e, refl);
          owner = Owner-woken_producer s.p_at (still_mine inv.owner);
          p_sleeps = λ q. absurd (woken_awake s.p_at q);
          c_sleeps = λ q. cc;
        },
        refl,
      )
    where
      still_mine : Owner s.locked s.p_at s.c_at → Owner s.locked s.p_at (before_unlock s.c_i)
      still_mine (nobody f np nc) = absurd (nc (subst InLock (sym e) tt))
      still_mine (producer_has f in_p nc) = absurd (nc (subst InLock (sym e) tt))
      still_mine (consumer_has f np in_c) = consumer_has f np tt

  unlock-Keeps : (v : ℕ) → s.c_at ≡ before_unlock v → Keeps k s.n (consume_from (before_unlock v) s)
  unfolding consume_from
  unlock-Keeps v e =
      let i = s.c_i + 1 in
      (
        record s { locked = false; c_i = i; c_at = next_place s.n i },
        rw ((==_iff v s.c_i).1 (ok_at (before_unlock v) e).1) refl,
        moved-Inv false i (next_place s.n i)
            (count-next_place s.n i ∙ omega arith ∙ ap (count s.c_i) (sym e))
            (RoundOk-next_place s.n i (omega (arith, (ok_at (before_unlock v) e).0)))
            (nobody refl (alone (before_unlock v) e tt) (next_place_out s.n i))
            (λ q. absurd (next_place_awake s.n i q)),
        refl,
      )

  pub consume_from-Keeps : (at : Place) → s.c_at ≡ at → Keeps k s.n (consume_from at s)
  unfolding consume_from
  consume_from-Keeps before_lock e = lock-Keeps e
  consume_from-Keeps testing e = by_number inv.m refl
    where
      by_number : (m : ℕ) → inv.m ≡ m → Keeps k s.n (consume_from testing s)
      by_number zero z = sleep-Keeps e z
      by_number (suc m) more = read-Keeps m more e
  consume_from-Keeps asleep e = (s, refl, inv, refl)
  consume_from-Keeps ended e = (s, refl, inv, refl)
  consume_from-Keeps (before_unlock v) e = unlock-Keeps v e
