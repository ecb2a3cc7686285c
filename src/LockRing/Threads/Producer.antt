-- ===== src/LockRing/Threads/Producer.antt =====
-- The turns of the producer keep the invariant.
use systems_drills.Base.{
  ℕ, suc, ◌+◌, ◌^◌, ◌≡◌, ◌≢◌, inl, inr, refl, sym, ap, ◌∙◌, subst, Bool, true, false, arith,
  Bool-cases, ℕ_discrete,
}
use systems_drills.LockRing.{put}
use systems_drills.LockRing.Calls.{Holds, full-yes, full-no, put_lem}
use systems_drills.LockRing.Threads.{
  Place, System, before_lock, testing, asleep, ended, before_unlock, next_place, woken,
  produce_from,
}
use systems_drills.LockRing.Threads.Invariant.{
  InLock, count, RoundOk, Owner, nobody, producer_has, consumer_has, Inv, Keeps, count-woken,
  RoundOk-woken, woken_awake, count-next_place, RoundOk-next_place, next_place_out,
  next_place_awake, nobody_in, producer_alone, Owner-woken_consumer, Owner-woken_producer,
}

module _ (k : ℕ) (s : System) (inv : Inv k s) where
  ok_at : (at : Place) → s.p_at ≡ at → RoundOk s.n s.p_i at
  ok_at at e = subst (RoundOk s.n s.p_i) e inv.p_ok

  flow_at : (at : Place) → s.p_at ≡ at → count s.p_i at ≡ count s.c_i s.c_at + inv.m
  flow_at at e = ap (count s.p_i) (sym e) ∙ inv.flow

  alone : (at : Place) → s.p_at ≡ at → InLock at → ¬ InLock s.c_at
  alone at e in_lock = producer_alone inv.owner (subst InLock (sym e) in_lock)

  -- The place, the round and the mutex change, the ring does not.
  moved-Inv :
      (locked : Bool) (i : ℕ) (at : Place)
      → count i at ≡ count s.p_i s.p_at
      → RoundOk s.n i at
      → Owner locked at s.c_at
      → (at ≡ asleep → inv.m ≡ 2 ^ k)
      → Inv k (record s { locked = locked; p_i = i; p_at = at })
  moved-Inv locked i at same ok owner sleeps = record {
    m = inv.m;
    stored = inv.stored;
    flow = same ∙ inv.flow;
    p_ok = ok;
    c_ok = inv.c_ok;
    owner = owner;
    p_sleeps = sleeps;
    c_sleeps = inv.c_sleeps;
  }

  pub interrupt_producer-Inv : Inv k (record s { p_at = woken s.p_at })
  interrupt_producer-Inv =
      moved-Inv s.locked s.p_i (woken s.p_at) (count-woken s.p_i s.p_at)
        (RoundOk-woken s.n s.p_i s.p_at inv.p_ok) (Owner-woken_producer s.p_at inv.owner)
        (λ e. absurd (woken_awake s.p_at e))

  lock-Keeps : s.p_at ≡ before_lock → Keeps k s.n (produce_from before_lock s)
  unfolding produce_from
  lock-Keeps e = elim (Bool-cases s.locked) [
    | inl taken ↦ (s, rw taken refl, inv, refl)
    | inr free ↦ (
      record s { locked = true; p_at = testing },
      rw free refl,
      moved-Inv true s.p_i testing (ap (count s.p_i) (sym e)) (ok_at before_lock e)
          (producer_has refl tt (nobody_in inv.owner free).1) (λ q. cc),
      refl,
    )
  ]

  sleep-Keeps : s.p_at ≡ testing → inv.m ≡ 2 ^ k → Keeps k s.n (produce_from testing s)
  unfolding produce_from
  sleep-Keeps e is_full = (
    record s { locked = false; p_at = asleep },
    rw (full-yes inv.stored is_full) refl,
    moved-Inv false s.p_i asleep (ap (count s.p_i) (sym e)) (ok_at testing e)
        (nobody refl (λ b. b) (alone testing e tt)) (λ _. is_full),
    refl,
  )

  write-Keeps : s.p_at ≡ testing → inv.m ≢ 2 ^ k → Keeps k s.n (produce_from testing s)
  unfolding produce_from
  write-Keeps e room =
      let (ring, wrote, h) = put_lem inv.stored room in
      let next : count s.c_i s.c_at + inv.m ≡ s.p_i = sym (flow_at testing e) in
      (
        record s { ring = ring; p_at = before_unlock s.p_i; c_at = woken s.c_at },
        rw (full-no inv.stored room, ap (put s.ring) (sym next) ∙ wrote) refl,
        record {
          m = suc inv.m;
          stored = subst (λ a. Holds k a (suc inv.m) ring) (sym (count-woken s.c_i s.c_at)) h;
          flow = omega (arith, count-woken s.c_i s.c_at, next);
          p_ok = (ok_at testing e, refl);
          c_ok = RoundOk-woken s.n s.c_i s.c_at inv.c_ok;
          owner = Owner-woken_consumer s.c_at (still_mine inv.owner);
          p_sleeps = λ q. cc;
          c_sleeps = λ q. absurd (woken_awake s.c_at q);
        },
        refl,
      )
    where
      still_mine : Owner s.locked s.p_at s.c_at → Owner s.locked (before_unlock s.p_i) s.c_at
      still_mine (nobody f np nc) = absurd (np (subst InLock (sym e) tt))
      still_mine (producer_has f in_p nc) = producer_has f tt nc
      still_mine (consumer_has f np in_c) = absurd (np (subst InLock (sym e) tt))

  unlock-Keeps : (v : ℕ) → s.p_at ≡ before_unlock v → Keeps k s.n (produce_from (before_unlock v) s)
  unfolding produce_from
  unlock-Keeps v e =
      let i = s.p_i + 1 in
      (
        record s { locked = false; p_i = i; p_at = next_place s.n i },
        refl,
        moved-Inv false i (next_place s.n i)
            (count-next_place s.n i ∙ omega arith ∙ ap (count s.p_i) (sym e))
            (RoundOk-next_place s.n i (omega (arith, (ok_at (before_unlock v) e).0)))
            (nobody refl (next_place_out s.n i) (alone (before_unlock v) e tt))
            (λ q. absurd (next_place_awake s.n i q)),
        refl,
      )

  pub produce_from-Keeps : (at : Place) → s.p_at ≡ at → Keeps k s.n (produce_from at s)
  unfolding produce_from
  produce_from-Keeps before_lock e = lock-Keeps e
  produce_from-Keeps testing e = elim (ℕ_discrete inv.m (2 ^ k)) [
    | yes is_full ↦ sleep-Keeps e is_full
    | no room ↦ write-Keeps e room
  ]
  produce_from-Keeps asleep e = (s, refl, inv, refl)
  produce_from-Keeps ended e = (s, refl, inv, refl)
  produce_from-Keeps (before_unlock v) e = unlock-Keeps v e
