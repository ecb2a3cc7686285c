-- ===== src/Cas/Maximum.antt =====
-- The invariant of `my_max`.
use systems_drills.Base.{
  ℕ, ◌+◌, ◌≤◌, ◌<◌, ◌≡◌, ◌⊎◌, inl, inr, refl, subst, Bool, ◌&&◌, not, List, [], ◌∷◌, arith, ltb,
  lt→ltb, le→ltb, dec_lt, ◌==◌, ℕ_discrete, Bool-cases,
}
use systems_drills.Base.Update.{update_all}
use systems_drills.Cas.{
  At, Thread, System, loading, finished, trying, next_round, set_thread, end_call, offer, max_from,
  run_max, start,
}
use systems_drills.Cas.Counts.{
  RoundAt, Rounds, AllBelow, RoundAt-next_round, start-Rounds, swaps_iff, set_thread-Rounds,
}

-- A snapshot is a value that the counter had: it is not above the counter.
abbrev pub SnapshotOk : ℕ → At → Type 0
SnapshotOk counter (trying snapshot) = snapshot ≤ counter
SnapshotOk counter loading = Unit
SnapshotOk counter finished = Unit

-- The counter is not below what has been offered in a round that is over.
abbrev pub Covers : ℕ → ℕ → ℕ → ℕ → Type 0
Covers n counter k i = (j : ℕ) → j < i → offer n j k ≤ counter

-- The counter is 0, or a value that was offered.
abbrev pub Offered : ℕ → ℕ → ℕ → Type 0
Offered n iter c = (c ≡ 0) ⊎ (j : ℕ) × (k : ℕ) × (j < iter) × (k < n) × (c ≡ offer n j k)

pub record MaxInv (n : ℕ) (s : System) : Type 0 where
  pub rounds : Rounds n s
  pub snapshots : (k : ℕ) → k < n → SnapshotOk s.counter (s.threads k).at
  pub covers : (k : ℕ) → k < n → Covers n s.counter k (s.threads k).i
  pub offered : Offered n s.iter s.counter

SnapshotOk-mono : (c d : ℕ) (at : At) → c ≤ d → SnapshotOk c at → SnapshotOk d at
SnapshotOk-mono c d loading le ok = tt
SnapshotOk-mono c d finished le ok = tt
SnapshotOk-mono c d (trying snapshot) le ok = omega arith

SnapshotOk-next_round : (c iter i : ℕ) → SnapshotOk c (next_round iter i)
SnapshotOk-next_round c iter i = elim (Bool-cases (ltb i iter)) [
  | inl e ↦ rw e tt
  | inr e ↦ rw e tt
]

module _ (n : ℕ) (s : System) (k : ℕ) (lt : k < n) (inv : MaxInv n s) where
  -- A snapshot of the counter, in the same round.
  snapshot-MaxInv :
      (retries : ℕ)
      → (s.threads k).i < s.iter
      → MaxInv n (
          set_thread s k (record { i = (s.threads k).i; at = trying s.counter; retries = retries }))
  snapshot-MaxInv retries going = record {
    rounds = set_thread-Rounds n s k lt inv.rounds _ going;
    snapshots =
        update_all n (λ q (z : Thread). SnapshotOk s.counter z.at) s.threads k _ (omega arith)
          (λ q below far. inv.snapshots q below);
    covers =
        update_all n (λ q (z : Thread). Covers n s.counter q z.i) s.threads k _ (inv.covers k lt)
          (λ q below far. inv.covers q below);
    offered = inv.offered;
  }

  -- The end of a call that leaves `c` in the counter, not below the value offered.
  end_call-MaxInv :
      (c : ℕ)
      → (s.threads k).i < s.iter
      → s.counter ≤ c
      → offer n (s.threads k).i k ≤ c
      → Offered n s.iter c
      → MaxInv n (end_call s c k)
  end_call-MaxInv c going more enough is_offered = record {
    rounds =
        set_thread-Rounds n s k lt inv.rounds _ (RoundAt-next_round s.iter (s.threads k).i going);
    snapshots =
        update_all n (λ q (z : Thread). SnapshotOk c z.at) s.threads k _
          (SnapshotOk-next_round c s.iter ((s.threads k).i + 1))
          (λ q below far.
            SnapshotOk-mono s.counter c (s.threads q).at more (inv.snapshots q below));
    covers =
        update_all n (λ q (z : Thread). Covers n c q z.i) s.threads k _ mine
          (λ q below far j j_lt. omega (arith, inv.covers q below j j_lt));
    offered = is_offered;
  }
    where
      mine : Covers n c k ((s.threads k).i + 1)
      mine j j_lt = elim (ℕ_discrete (s.threads k).i j) [
        | yes last ↦ subst (λ q. offer n q k ≤ c) last enough
        | no ne ↦ omega (arith, inv.covers k lt j (omega (arith, ne)))
      ]

  max_from-MaxInv :
      (at : At) (spurious : Bool) → (s.threads k).at ≡ at → MaxInv n (max_from n at s k spurious)
  unfolding max_from
  max_from-MaxInv finished spurious e = inv
  max_from-MaxInv loading spurious e =
      snapshot-MaxInv (s.threads k).retries
        (subst (RoundAt s.iter (s.threads k).i) e (inv.rounds k lt))
  max_from-MaxInv (trying snapshot) spurious e = elim (dec_lt snapshot v) [
    | no enough ↦
        rw (le→ltb snapshot v (omega arith))
          (end_call-MaxInv s.counter going (omega arith) (omega (arith, known)) inv.offered)
    | yes larger ↦ elim (Bool-cases (not spurious && (s.counter == snapshot))) [
      | inr fails ↦
          rw (lt→ltb snapshot v larger, fails) (snapshot-MaxInv ((s.threads k).retries + 1) going)
      | inl swaps ↦
          rw (lt→ltb snapshot v larger, swaps)
            (end_call-MaxInv v going (omega (arith, swaps_iff spurious s.counter snapshot swaps))
              (omega arith) (inr ((s.threads k).i, k, going, lt, refl)))
    ]
  ]
    where
      v : ℕ
      v = offer n (s.threads k).i k

      going : (s.threads k).i < s.iter
      going = subst (RoundAt s.iter (s.threads k).i) e (inv.rounds k lt)

      known : snapshot ≤ s.counter
      known = subst (SnapshotOk s.counter) e (inv.snapshots k lt)

pub run_max-MaxInv :
    (n : ℕ) (s : System) (turns : List (ℕ × Bool))
    → AllBelow n turns
    → MaxInv n s
    → MaxInv n (run_max n s turns)
unfolding run_max
run_max-MaxInv n s [] below inv = inv
run_max-MaxInv n s ((k, spurious) ∷ turns) (lt, below) inv =
    run_max-MaxInv n (max_from n (s.threads k).at s k spurious) turns below
      (max_from-MaxInv n s k lt inv (s.threads k).at spurious refl)

pub start-MaxInv : (n iter : ℕ) → MaxInv n (start iter)
unfolding start
start-MaxInv n iter = record {
  rounds = start-Rounds n iter;
  snapshots = λ k lt. SnapshotOk-next_round 0 iter 0;
  covers = λ k lt j j_lt. absurd (omega arith);
  offered = inl refl;
}
