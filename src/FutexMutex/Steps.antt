-- ===== src/FutexMutex/Steps.antt =====
-- Each step of a thread keeps the invariant.
use systems_drills.Base.{ℕ, ◌<◌, ◌≡◌, ◌≢◌, inl, inr, sym, ◌∙◌, subst, ℕ_discrete}
use systems_drills.Base.Update.{update, update_self, update_ne, update_all, sum}
use systems_drills.FutexMutex.{At, Thread, System, asleep}
use systems_drills.FutexMutex.Invariant.{
  InCritical, WillNudge, RoundsOk, Owner, free, held, Nudge, Inv,
}

-- The state with one thread, the word and the counter replaced.
abbrev pub with_thread : System → ℕ → ℕ → ℕ → Thread → System
with_thread s w c k t = record {
  word = w;
  counter = c;
  iter = s.iter;
  threads = update s.threads k t;
}

module _ (n : ℕ) (s : System) (k : ℕ) (lt : k < n) where
  -- While one thread has the lock the others have not.
  pub others_out :
      Owner n s
      → InCritical (s.threads k).at
      → (j : ℕ) → j < n
      → k ≢ j
      → ¬ InCritical (s.threads j).at
  others_out (free z none) crit j below far = absurd (none k lt crit)
  others_out (held h h_lt nz h_crit rest) crit j below far = elim (ℕ_discrete h k) [
    | yes e ↦ rest j below (λ q. far (sym e ∙ q))
    | no ne ↦ absurd (rest k lt ne crit)
  ]

module _ (n : ℕ) (s : System) (k : ℕ) (lt : k < n) (w c : ℕ) (t : Thread) where
  -- A property of the place of thread `k`, and of another's.
  at_self : (P : At → Type 0) → P t.at → P ((with_thread s w c k t).threads k).at
  at_self P p = subst (λ (z : Thread). P z.at) (sym (update_self s.threads k t)) p

  at_other :
      (P : At → Type 0) (j : ℕ)
      → k ≢ j
      → P (s.threads j).at
      → P ((with_thread s w c k t).threads j).at
  at_other P j ne p = subst (λ (z : Thread). P z.at) (sym (update_ne s.threads k j t ne)) p

  not_critical :
      ¬ InCritical t.at
      → ((j : ℕ) → j < n → k ≢ j → ¬ InCritical (s.threads j).at)
      → (j : ℕ) → j < n
      → ¬ InCritical ((with_thread s w c k t).threads j).at
  not_critical new rest = update_all n (λ j (z : Thread). ¬ InCritical z.at) s.threads k t new rest

  pub owner_take :
      Owner n s → s.word ≡ 0 → w ≢ 0 → InCritical t.at → Owner n (with_thread s w c k t)
  owner_take (free z none) e ne new =
      held k lt ne (at_self InCritical new)
        (λ j below far. at_other (λ z. ¬ InCritical z) j far (none j below))
  owner_take (held h below nz crit rest) e ne new = absurd (nz e)

  pub owner_keep :
      Owner n s
      → ¬ InCritical (s.threads k).at
      → ¬ InCritical t.at
      → (s.word ≡ 0 → w ≡ 0)
      → (s.word ≢ 0 → w ≢ 0)
      → Owner n (with_thread s w c k t)
  owner_keep (free z none) old new zero_same ne_same =
      free (zero_same z) (not_critical new (λ j below far. none j below))
  owner_keep (held h below nz crit rest) old new zero_same ne_same =
      let far : k ≢ h = λ e. old (subst (λ j. InCritical (s.threads j).at) (sym e) crit) in
      held h below (ne_same nz) (at_other InCritical h far crit) (λ j lt' ne.
        update_all n (λ j (z : Thread). ¬ (h ≡ j) → ¬ InCritical z.at) s.threads k t (λ _. new)
          (λ q q_lt _ q_ne. rest q q_lt q_ne) j lt' ne)

  pub owner_stay :
      Owner n s
      → InCritical (s.threads k).at
      → InCritical t.at
      → w ≡ s.word
      → Owner n (with_thread s w c k t)
  owner_stay (free z none) old new same = absurd (none k lt old)
  owner_stay (held h below nz crit rest) old new same = elim (ℕ_discrete h k) [
    | no ne ↦ absurd (rest k lt ne old)
    | yes e ↦
        held k lt (λ z. nz (sym same ∙ z)) (at_self InCritical new)
          (λ j below' far.
            at_other (λ z. ¬ InCritical z) j far (rest j below' (λ q. far (sym e ∙ q))))
  ]

  pub owner_leave :
      Owner n s
      → InCritical (s.threads k).at
      → ¬ InCritical t.at
      → w ≡ 0
      → Owner n (with_thread s w c k t)
  owner_leave (free z none) old new zero_now = absurd (none k lt old)
  owner_leave (held h below nz crit rest) old new zero_now = elim (ℕ_discrete h k) [
    | no ne ↦ absurd (rest k lt ne old)
    | yes e ↦
        free zero_now (not_critical new (λ j below' far. rest j below' (λ q. far (sym e ∙ q))))
  ]

  -- A nudge to come from another thread still comes.
  pub Nudge-other :
      ¬ WillNudge (s.threads k).at
      → (s.word ≡ 2 → w ≡ 2)
      → Nudge n s
      → Nudge n (with_thread s w c k t)
  Nudge-other old same (inl two) = inl (same two)
  Nudge-other old same (inr (j, below, will)) =
      let far : k ≢ j = λ e. old (subst (λ q. WillNudge (s.threads q).at) (sym e) will) in
      inr (j, below, at_other WillNudge j far will)

  pub Nudge-self : WillNudge t.at → Nudge n (with_thread s w c k t)
  Nudge-self will = inr (k, lt, at_self WillNudge will)

  pub change-Inv :
      Inv n s
      → Owner n (with_thread s w c k t)
      → RoundsOk c s.iter t.i t.at
      → ((j : ℕ)
          → j < n
          → k ≢ j
          → RoundsOk s.counter s.iter (s.threads j).i (s.threads j).at
          → RoundsOk c s.iter (s.threads j).i (s.threads j).at)
      → c ≡ sum n (λ j. (update s.threads k t j).i)
      → (t.at ≡ asleep → Nudge n (with_thread s w c k t))
      → ((j : ℕ) → j < n → k ≢ j → (s.threads j).at ≡ asleep → Nudge n (with_thread s w c k t))
      → Inv n (with_thread s w c k t)
  change-Inv inv owner ok others total sleeps nudge = record {
    owner = owner;
    rounds =
        update_all n (λ j (z : Thread). RoundsOk c s.iter z.i z.at) s.threads k t ok
          (λ j below far. others j below far (inv.rounds j below));
    total = total;
    sleepers =
        update_all n (λ j (z : Thread). z.at ≡ asleep → Nudge n (with_thread s w c k t)) s.threads k
          t sleeps nudge;
  }
