-- ===== src/BoundedBuffer/Threads/Ending.antt =====
-- Threads that have ended, threads that can run, and the sums when none can.
use systems_drills.Base.{
  ℕ, suc, ◌+◌, ◌*◌, ◌≤◌, ◌<◌, ◌≡◌, ◌≢◌, ◌⊎◌, inl, inr, refl, ap, Bool, true, false, ◌&&◌, some,
  List, map, [], ◌∷◌, arith, leb, ltb, length, get_elem?, ℕ_discrete, Bool-cases,
}
use systems_drills.BoundedBuffer.Threads.{
  Producer, Consumer, Place, System, before_get, asleep_get, recording, writing,
}
use systems_drills.BoundedBuffer.Threads.Sums.{one_if, sum_by, All}
use systems_drills.BoundedBuffer.Threads.Invariant.{
  has_put, in_hand, hand, got_at, got, put_by, can_put, ready_put, ready_at, ready_get, asleep_put,
  asleep_in_get, ProducerOk, PlaceOk, ConsumerOk, put_all,
}

-- The next turn of the thread calls on the queue or changes `seen`.
abbrev pub can_go_on : ℕ → ℕ → Place → Bool
can_go_on n i before_get = ltb i n
can_go_on n i asleep_get = false
can_go_on n i (recording v) = true
can_go_on n i (writing v old) = true

abbrev pub can_get : ℕ → Consumer → Bool
can_get n c = can_go_on n c.i c.at

abbrev pub SomeoneRuns : System → Type 0
SomeoneRuns s =
    ((k : ℕ) × (p : Producer) × (get_elem? s.producers k ≡ some p) × (can_put s.n p ≡ true))
    ⊎ ((k : ℕ) × (c : Consumer) × (get_elem? s.consumers k ≡ some c) × (can_get s.n c ≡ true))

-- The loop of every thread has ended.
abbrev pub ProducerEnded : ℕ → Producer → Type 0
ProducerEnded n p = (p.asleep ≡ false) × (n ≤ p.i)

abbrev pub ConsumerEnded : ℕ → Consumer → Type 0
ConsumerEnded n c = (c.at ≡ before_get) × (n ≤ c.i)

abbrev pub Ended : System → Type 0
Ended s = All (ProducerEnded s.n) s.producers × All (ConsumerEnded s.n) s.consumers

module _ (n : ℕ) where
  -- The producers, when none can run.
  pub stuck_ready_put :
      (ps : List Producer) → All (λ p. can_put n p ≡ false) ps → sum_by (ready_put n) ps ≡ 0
  stuck_ready_put [] all = refl
  stuck_ready_put (p ∷ ps) all = omega (arith, ap one_if all.0, stuck_ready_put ps all.1)

  pub stuck_put :
      (ps : List Producer)
      → All (λ p. can_put n p ≡ false) ps
      → sum_by asleep_put ps ≡ 0
      → All (ProducerEnded n) ps
  stuck_put [] all z = tt
  stuck_put (p ∷ ps) all z = (ended, stuck_put ps all.1 (omega (arith, z)))
    where
      ended : ProducerEnded n p
      ended = elim (Bool-cases p.asleep) [
        | inl asleep ↦ absurd (omega (arith, z, ap one_if asleep))
        | inr awake ↦ (awake, ground arith)
      ]

  pub put_le : (ps : List Producer) → All (ProducerOk n) ps → sum_by put_by ps ≤ length ps * n
  put_le [] all = omega arith
  put_le (p ∷ ps) all = one_more (length ps) p.i (sum_by put_by ps) all.0.1 (put_le ps all.1)
    where
      one_more : (l i t : ℕ) → i ≤ n → t ≤ l * n → i + t ≤ suc l * n
      one_more l i t p q = grind arith

  pub put_ge : (ps : List Producer) → All (ProducerEnded n) ps → length ps * n ≤ sum_by put_by ps
  put_ge [] all = omega arith
  put_ge (p ∷ ps) all = one_more (length ps) p.i (sum_by put_by ps) all.0.1 (put_ge ps all.1)
    where
      one_more : (l i t : ℕ) → n ≤ i → l * n ≤ t → suc l * n ≤ i + t
      one_more l i t p q = grind arith

  -- The consumers, when none can run.
  pub stuck_ready_get :
      (cs : List Consumer) → All (λ c. can_get n c ≡ false) cs → sum_by (ready_get n) cs ≡ 0
  stuck_ready_get [] all = refl
  stuck_ready_get (c ∷ cs) all = omega (arith, at_zero c.i c.at all.0, stuck_ready_get cs all.1)
    where
      at_zero : (i : ℕ) (a : Place) → can_go_on n i a ≡ false → ready_at n i a ≡ 0
      at_zero i before_get e = ap one_if e
      at_zero i asleep_get e = refl
      at_zero i (recording v) e = refl
      at_zero i (writing v old) e = refl

  pub stuck_get :
      (cs : List Consumer)
      → All (λ c. can_get n c ≡ false) cs
      → sum_by asleep_in_get cs ≡ 0
      → All (ConsumerEnded n) cs
  stuck_get [] all z = tt
  stuck_get (c ∷ cs) all z =
      (ended c.i c.at all.0 (omega (arith, z)), stuck_get cs all.1 (omega (arith, z)))
    where
      ended :
          (i : ℕ) (a : Place)
          → can_go_on n i a ≡ false
          → asleep_in_get (record { i = i; at = a }) ≡ 0
          → (a ≡ before_get) × (n ≤ i)
      ended i before_get e z = (refl, ground arith)
      ended i asleep_get e z = absurd (omega (arith, z))
      ended i (recording v) e z = cc
      ended i (writing v old) e z = cc

  pub got_ge : (cs : List Consumer) → All (ConsumerEnded n) cs → length cs * n ≤ sum_by got cs
  got_ge [] all = omega arith
  got_ge (c ∷ cs) all =
      one_more (length cs) (got c) (sum_by got cs) (at_least all.0.0) (got_ge cs all.1)
    where
      at_least : c.at ≡ before_get → n ≤ got c
      at_least e = omega (arith, all.0.1, ap (got_at c.i) e)

      one_more : (l i t : ℕ) → n ≤ i → l * n ≤ t → suc l * n ≤ i + t
      one_more l i t p q = grind arith

  pub got_at_le : (i : ℕ) (a : Place) → PlaceOk n i a → got_at i a ≤ n
  got_at_le i before_get ok = ok
  got_at_le i asleep_get ok = omega (arith, ok)
  got_at_le i (recording v) ok = omega (arith, ok)
  got_at_le i (writing v old) ok = omega (arith, ok.0)

  pub got_le : (cs : List Consumer) → All (ConsumerOk n) cs → sum_by got cs ≤ length cs * n
  got_le [] all = omega arith
  got_le (c ∷ cs) all =
      one_more (length cs) (got c) (sum_by got cs) (got_at_le c.i c.at all.0) (got_le cs all.1)
    where
      one_more : (l i t : ℕ) → i ≤ n → t ≤ l * n → i + t ≤ suc l * n
      one_more l i t p q = grind arith

  -- A consumer that sleeps has not got all of its values.
  pub got_lt :
      (cs : List Consumer)
      → All (ConsumerOk n) cs
      → sum_by asleep_in_get cs ≢ 0
      → sum_by got cs < length cs * n
  got_lt [] all ne = absurd (ne refl)
  got_lt (c ∷ cs) all ne = elim (ℕ_discrete (asleep_in_get c) 0) [
    | yes z ↦
        later (length cs) (got c) (sum_by got cs) (got_at_le c.i c.at all.0)
          (got_lt cs all.1 (λ q. ne (omega (arith, z, q))))
    | no here ↦ now (length cs) (got c) (sum_by got cs) (less c.i c.at all.0 here) (got_le cs all.1)
  ]
    where
      less :
          (i : ℕ) (a : Place)
          → PlaceOk n i a
          → asleep_in_get (record { i = i; at = a }) ≢ 0
          → got_at i a < n
      less i before_get ok here = absurd (here refl)
      less i asleep_get ok here = ok
      less i (recording v) ok here = absurd (here refl)
      less i (writing v old) ok here = absurd (here refl)

      now : (l i t : ℕ) → i < n → t ≤ l * n → i + t < suc l * n
      now l i t p q = grind arith

      later : (l i t : ℕ) → i ≤ n → t < l * n → i + t < suc l * n
      later l i t p q = grind arith

  pub no_hands : (y : ℕ) (cs : List Consumer) → All (ConsumerEnded n) cs → sum_by (hand y) cs ≡ 0
  no_hands y [] all = refl
  no_hands y (c ∷ cs) all = omega (arith, ap (in_hand y) all.0.0, no_hands y cs all.1)

  pub put_by-ended :
      (v : ℕ) (ps : List Producer)
      → All (ProducerOk n) ps
      → All (ProducerEnded n) ps
      → sum_by (has_put n v) ps ≡ put_all n v (map (λ (p : Producer). p.id) ps)
  put_by-ended v [] all ended = refl
  put_by-ended v (p ∷ ps) all ended =
      let all_i : p.i ≡ n = omega (arith, all.0.1, ended.0.1) in
      omega (
        arith,
        ap (λ i. one_if (leb (p.id * n) v && ltb v (p.id * n + i))) all_i,
        put_by-ended v ps all.1 ended.1,
      )
