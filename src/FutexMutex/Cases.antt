-- ===== src/FutexMutex/Cases.antt =====
-- The steps of a thread, by its place.
use systems_drills.Base.{
  ℕ, ◌+◌, ◌≤◌, ◌<◌, ◌≡◌, ◌≢◌, inl, inr, refl, sym, ap, ◌∙◌, subst, arith, ltb, ==_iff, ==_ne,
  ℕ_discrete, Bool-cases, ltb→lt,
}
use systems_drills.Base.Update.{update, update_self, update_ne, sum_eq, sum-step}
use systems_drills.FutexMutex.{
  At, Thread, System, next_round, move, step_from, thread_step, trying, slow, sleepy, asleep,
  critical, unlocking, waking, finished, adding,
}
use systems_drills.FutexMutex.Invariant.{InCritical, WillNudge, RoundsOk, Owner, Nudge, Inv}
use systems_drills.FutexMutex.Steps.{
  with_thread, change-Inv, owner_take, owner_keep, owner_stay, owner_leave, others_out, Nudge-other,
  Nudge-self,
}

abbrev moved : System → ℕ → At → Thread
moved s k at = record { i = (s.threads k).i; at = at }

-- After a round the thread tries again or has finished.
next_rounds : (counter iter i : ℕ) → i ≤ iter → RoundsOk counter iter i (next_round iter i)
next_rounds counter iter i le = elim (Bool-cases (ltb i iter)) [
  | inl more ↦ rw more (ltb→lt i iter more)
  | inr done ↦ rw done (ground arith)
]

next_out : (iter i : ℕ) → ¬ InCritical (next_round iter i)
next_out iter i = elim (Bool-cases (ltb i iter)) [
  | inl more ↦ rw more (λ b. b)
  | inr done ↦ rw done (λ b. b)
]

next_awake : (iter i : ℕ) → next_round iter i ≢ asleep
next_awake iter i = elim (Bool-cases (ltb i iter)) [
  | inl more ↦ rw more (λ q. cc)
  | inr done ↦ rw done (λ q. cc)
]

-- Only the thread with the lock has read the counter.
rounds_out :
    (c d iter i : ℕ) (at : At) → ¬ InCritical at → RoundsOk c iter i at → RoundsOk d iter i at
rounds_out c d iter i trying out ok = ok
rounds_out c d iter i slow out ok = ok
rounds_out c d iter i sleepy out ok = ok
rounds_out c d iter i asleep out ok = ok
rounds_out c d iter i critical out ok = ok
rounds_out c d iter i (adding v) out ok = absurd (out tt)
rounds_out c d iter i unlocking out ok = ok
rounds_out c d iter i waking out ok = ok
rounds_out c d iter i finished out ok = ok

module _ (n : ℕ) (s : System) (k : ℕ) (lt : k < n) (inv : Inv n s) where
  keeps :
      (w c : ℕ) (t : Thread)
      → (Nudge n s → Nudge n (with_thread s w c k t))
      → (j : ℕ) → j < n
      → k ≢ j
      → (s.threads j).at ≡ asleep
      → Nudge n (with_thread s w c k t)
  keeps w c t nudge j below far e = nudge (inv.sleepers j below e)

  -- The counter and the rounds are as before.
  move-Inv :
      (w : ℕ) (at : At)
      → Owner n (with_thread s w s.counter k (moved s k at))
      → RoundsOk s.counter s.iter (s.threads k).i at
      → (at ≡ asleep → Nudge n (with_thread s w s.counter k (moved s k at)))
      → ((j : ℕ)
          → j < n
          → k ≢ j
          → (s.threads j).at ≡ asleep
          → Nudge n (with_thread s w s.counter k (moved s k at)))
      → Inv n (with_thread s w s.counter k (moved s k at))
  move-Inv w at owner ok sleeps nudge =
      change-Inv n s k lt w s.counter (moved s k at) inv owner ok (λ j below far same. same)
        (inv.total
          ∙ sum_eq n (λ j. (s.threads j).i) (λ j. (update s.threads k (moved s k at) j).i)
              (λ j below. same_i j))
        sleeps nudge
    where
      same_i : (j : ℕ) → (s.threads j).i ≡ (update s.threads k (moved s k at) j).i
      same_i j = elim (ℕ_discrete k j) [
        | yes e ↦
            subst (λ q. (s.threads q).i ≡ (update s.threads k (moved s k at) q).i) e
              (ap (λ (z : Thread). z.i) (sym (update_self s.threads k (moved s k at))))
        | no ne ↦ ap (λ (z : Thread). z.i) (sym (update_ne s.threads k j (moved s k at) ne))
      ]

  rounds_at : (at : At) → (s.threads k).at ≡ at → RoundsOk s.counter s.iter (s.threads k).i at
  rounds_at at e = subst (RoundsOk s.counter s.iter (s.threads k).i) e (inv.rounds k lt)

  not_at : (P : At → Type 0) (at : At) → (s.threads k).at ≡ at → ¬ P at → ¬ P (s.threads k).at
  not_at P at e no_p p = no_p (subst P e p)

  trying-Inv : (s.threads k).at ≡ trying → Inv n (step_from trying s k)
  unfolding step_from
  trying-Inv e = elim (ℕ_discrete s.word 0) [
    | yes z ↦ rw ((==_iff s.word 0).1 z) (
        move-Inv 1 critical
          (owner_take n s k lt 1 s.counter (moved s k critical) inv.owner z (λ q. omega arith) tt)
          (rounds_at trying e) (λ q. cc)
          (keeps 1 s.counter (moved s k critical) (
            Nudge-other n s k lt 1 s.counter (moved s k critical)
              (not_at WillNudge trying e (λ b. b)) (λ q. omega (arith, q, z)))))
    | no nz ↦ rw (==_ne s.word 0 nz) (
        move-Inv 1 slow
          (owner_keep n s k lt 1 s.counter (moved s k slow) inv.owner
            (not_at InCritical trying e (λ b. b)) (λ b. b) (λ q. absurd (nz q))
            (λ q r. omega arith))
          (rounds_at trying e) (λ q. cc)
          (λ j below far q. Nudge-self n s k lt 1 s.counter (moved s k slow) tt))
  ]

  slow-Inv : (s.threads k).at ≡ slow → Inv n (step_from slow s k)
  unfolding step_from
  slow-Inv e = elim (ℕ_discrete s.word 0) [
    | yes z ↦ rw ((==_iff s.word 0).1 z) (
        move-Inv 2 critical
          (owner_take n s k lt 2 s.counter (moved s k critical) inv.owner z (λ q. omega arith) tt)
          (rounds_at slow e) (λ q. cc) (λ j below far q. inl refl))
    | no nz ↦ rw (==_ne s.word 0 nz) (
        move-Inv 2 sleepy
          (owner_keep n s k lt 2 s.counter (moved s k sleepy) inv.owner
            (not_at InCritical slow e (λ b. b)) (λ b. b) (λ q. absurd (nz q)) (λ q r. omega arith))
          (rounds_at slow e) (λ q. cc) (λ j below far q. inl refl))
  ]

  sleepy-Inv : (s.threads k).at ≡ sleepy → Inv n (step_from sleepy s k)
  unfolding step_from
  sleepy-Inv e = elim (ℕ_discrete s.word 2) [
    | yes two ↦ rw ((==_iff s.word 2).1 two) (
        move-Inv s.word asleep
          (owner_keep n s k lt s.word s.counter (moved s k asleep) inv.owner
            (not_at InCritical sleepy e (λ b. b)) (λ b. b) (λ q. q) (λ q. q))
          (rounds_at sleepy e) (λ q. inl two) (λ j below far q. inl two))
    | no ne ↦ rw (==_ne s.word 2 ne) (
        move-Inv s.word slow
          (owner_keep n s k lt s.word s.counter (moved s k slow) inv.owner
            (not_at InCritical sleepy e (λ b. b)) (λ b. b) (λ q. q) (λ q. q))
          (rounds_at sleepy e) (λ q. cc)
          (λ j below far q. Nudge-self n s k lt s.word s.counter (moved s k slow) tt))
  ]

  critical-Inv : (s.threads k).at ≡ critical → Inv n (step_from critical s k)
  unfolding step_from
  critical-Inv e =
      move-Inv s.word (adding s.counter)
        (owner_stay n s k lt s.word s.counter (moved s k (adding s.counter)) inv.owner
          (subst InCritical (sym e) tt) tt refl)
        (rounds_at critical e, refl) (λ q. cc)
        (keeps s.word s.counter (moved s k (adding s.counter)) (
          Nudge-other n s k lt s.word s.counter (moved s k (adding s.counter))
            (not_at WillNudge critical e (λ b. b)) (λ q. q)))

  adding-Inv : (v : ℕ) → (s.threads k).at ≡ adding v → Inv n (step_from (adding v) s k)
  unfolding step_from
  adding-Inv v e =
      change-Inv n s k lt s.word (v + 1) added inv
        (owner_stay n s k lt s.word (v + 1) added inv.owner in_critical tt refl)
        (omega (arith, (rounds_at (adding v) e).0))
        (λ j below far.
          rounds_out s.counter (v + 1) s.iter (s.threads j).i (s.threads j).at
            (others_out n s k lt inv.owner in_critical j below far))
        (omega (
          arith,
          (rounds_at (adding v) e).1,
          inv.total,
          sum-step n k (λ j. (s.threads j).i) (λ j. (update s.threads k added j).i) lt
              (ap (λ (z : Thread). z.i) (update_self s.threads k added))
              (λ j below far. ap (λ (z : Thread). z.i) (update_ne s.threads k j added far)),
        ))
        (λ q. cc)
        (keeps s.word (v + 1) added (
          Nudge-other n s k lt s.word (v + 1) added (not_at WillNudge (adding v) e (λ b. b))
            (λ q. q)))
    where
      added : Thread
      added = record { i = (s.threads k).i + 1; at = unlocking }

      in_critical : InCritical (s.threads k).at
      in_critical = subst InCritical (sym e) tt

  unlocking-Inv : (s.threads k).at ≡ unlocking → Inv n (step_from unlocking s k)
  unfolding step_from
  unlocking-Inv e = elim (ℕ_discrete s.word 2) [
    | yes two ↦ rw ((==_iff s.word 2).1 two) (
        move-Inv 0 waking
          (owner_leave n s k lt 0 s.counter (moved s k waking) inv.owner
            (subst InCritical (sym e) tt) (λ b. b) refl)
          (rounds_at unlocking e) (λ q. cc)
          (λ j below far q. Nudge-self n s k lt 0 s.counter (moved s k waking) tt))
    | no ne ↦
        let at = next_round s.iter (s.threads k).i in
        rw (==_ne s.word 2 ne) (
          move-Inv 0 at
            (owner_leave n s k lt 0 s.counter (moved s k at) inv.owner (subst InCritical (sym e) tt)
              (next_out s.iter (s.threads k).i) refl)
            (next_rounds s.counter s.iter (s.threads k).i (rounds_at unlocking e))
            (λ q. absurd (next_awake s.iter (s.threads k).i q))
            (keeps 0 s.counter (moved s k at) (
              Nudge-other n s k lt 0 s.counter (moved s k at)
                (not_at WillNudge unlocking e (λ b. b)) (λ q. absurd (ne q)))))
  ]

  -- The end of a futex wake, given that each thread still asleep is nudged.
  pub waking-Inv :
      (s.threads k).at ≡ waking
      → ((j : ℕ)
          → j < n
          → k ≢ j
          → (s.threads j).at ≡ asleep
          → Nudge n (move s k (next_round s.iter (s.threads k).i)))
      → Inv n (move s k (next_round s.iter (s.threads k).i))
  waking-Inv e nudge =
      let at = next_round s.iter (s.threads k).i in
      move-Inv s.word at
        (owner_keep n s k lt s.word s.counter (moved s k at) inv.owner
          (not_at InCritical waking e (λ b. b)) (next_out s.iter (s.threads k).i) (λ q. q) (λ q. q))
        (next_rounds s.counter s.iter (s.threads k).i (rounds_at waking e))
        (λ q. absurd (next_awake s.iter (s.threads k).i q)) nudge

  -- A sleeper that is woken, or interrupted.
  pub woken-Inv : (s.threads k).at ≡ asleep → Inv n (move s k slow)
  woken-Inv e =
      move-Inv s.word slow
        (owner_keep n s k lt s.word s.counter (moved s k slow) inv.owner
          (not_at InCritical asleep e (λ b. b)) (λ b. b) (λ q. q) (λ q. q))
        (rounds_at asleep e) (λ q. cc)
        (λ j below far q. Nudge-self n s k lt s.word s.counter (moved s k slow) tt)

  step_from-Inv : (at : At) → (s.threads k).at ≡ at → at ≢ waking → Inv n (step_from at s k)
  unfolding step_from
  step_from-Inv trying e ne = trying-Inv e
  step_from-Inv slow e ne = slow-Inv e
  step_from-Inv sleepy e ne = sleepy-Inv e
  step_from-Inv asleep e ne = inv
  step_from-Inv critical e ne = critical-Inv e
  step_from-Inv (adding v) e ne = adding-Inv v e
  step_from-Inv unlocking e ne = unlocking-Inv e
  step_from-Inv waking e ne = absurd (ne refl)
  step_from-Inv finished e ne = inv

  pub thread_step-Inv : (s.threads k).at ≢ waking → Inv n (thread_step s k)
  unfolding thread_step
  thread_step-Inv ne = step_from-Inv (s.threads k).at refl ne
