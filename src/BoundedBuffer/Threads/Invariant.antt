-- ===== src/BoundedBuffer/Threads/Invariant.antt =====
-- What is counted about the threads, and the invariant of the turns.
use systems_drills.Base.{
  ℕ, ◌+◌, ◌*◌, ◌%◌, ◌^◌, ◌≤◌, ◌<◌, ◌≡◌, ◌≢◌, refl, ap, Bool, true, not, ◌&&◌, Option, some, List,
  map, [], ◌∷◌, ◌++◌, arith, ◌==◌, leb, ltb, lt→ltb, length, get_or, ℕ_discrete,
}
use systems_drills.Base.Bits.{add64}
use systems_drills.BoundedBuffer.Refine.{IsValid, contents}
use systems_drills.BoundedBuffer.Threads.{
  Producer, Consumer, Place, System, before_get, asleep_get, recording, writing, sleeps_put,
  sleeps_get, value_of, seen_index,
}
use systems_drills.BoundedBuffer.Threads.Sums.{one_if, sum_by, All}

-- How often a value stands in a list.
abbrev pub tally : ℕ → List ℕ → ℕ
tally v [] = 0
tally v (x ∷ xs) = one_if (v == x) + tally v xs

pub tally-snoc : (v x : ℕ) (xs : List ℕ) → tally v (xs ++ (x ∷ [])) ≡ tally v xs + one_if (v == x)
tally-snoc v x [] = omega arith
tally-snoc v x (y ∷ xs) = omega (arith, tally-snoc v x xs)

-- Whether a producer has put a value already.
abbrev pub has_put : ℕ → ℕ → Producer → ℕ
has_put n v p = one_if (leb (p.id * n) v && ltb v (p.id * n + p.i))

pub has_put-step :
    (n v : ℕ) (p : Producer)
    → has_put n v (record p { i = p.i + 1 }) ≡ has_put n v p + one_if (v == p.id * n + p.i)
has_put-step n v p = go (p.id * n) p.i
  where
    go :
        (a i : ℕ)
        → one_if (leb a v && ltb v (a + (i + 1)))
          ≡ one_if (leb a v && ltb v (a + i)) + one_if (v == a + i)
    go a i = ground arith

-- Whether a consumer has got a value and has not yet written that it has seen it.
abbrev pub in_hand : ℕ → Place → ℕ
in_hand y before_get = 0
in_hand y asleep_get = 0
in_hand y (recording v) = one_if (y == v)
in_hand y (writing v old) = one_if (y == v)

abbrev pub hand : ℕ → Consumer → ℕ
hand y c = in_hand y c.at

-- The values that a consumer has got.
abbrev pub got_at : ℕ → Place → ℕ
got_at i before_get = i
got_at i asleep_get = i
got_at i (recording v) = i + 1
got_at i (writing v old) = i + 1

abbrev pub got : Consumer → ℕ
got c = got_at c.i c.at

abbrev pub put_by : Producer → ℕ
put_by p = p.i

-- Whether the thread is awake and about to call on the queue.
abbrev pub can_put : ℕ → Producer → Bool
can_put n p = not p.asleep && ltb p.i n

abbrev pub ready_put : ℕ → Producer → ℕ
ready_put n p = one_if (can_put n p)

abbrev pub ready_at : ℕ → ℕ → Place → ℕ
ready_at n i before_get = one_if (ltb i n)
ready_at n i asleep_get = 0
ready_at n i (recording v) = 0
ready_at n i (writing v old) = 0

abbrev pub ready_get : ℕ → Consumer → ℕ
ready_get n c = ready_at n c.i c.at

abbrev pub asleep_put : Producer → ℕ
asleep_put p = one_if (sleeps_put p)

abbrev pub asleep_in_get : Consumer → ℕ
asleep_in_get c = one_if (sleeps_get c)

abbrev pub ProducerOk : ℕ → Producer → Type 0
ProducerOk n p = (p.id < 3) × (p.i ≤ n) × (p.asleep ≡ true → p.i < n)

-- A number that was read from `seen` is 0: its value is not there yet.
abbrev pub PlaceOk : ℕ → ℕ → Place → Type 0
PlaceOk n i before_get = i ≤ n
PlaceOk n i asleep_get = i < n
PlaceOk n i (recording v) = i < n
PlaceOk n i (writing v old) = (i < n) × (old ≡ 0)

abbrev pub ConsumerOk : ℕ → Consumer → Type 0
ConsumerOk n c = PlaceOk n c.i c.at

-- Every value that was put is in the queue, in a hand, or counted in `seen`. While a producer
-- sleeps, the queue and the producers that are about to call make up a full queue; while a consumer
-- sleeps, as many are about to call as values are in the queue.
pub record Inv (s : System) : Type 0 where
  pub q_valid : IsValid s.q
  pub fits : 3 * s.n ≤ 2 ^ 31
  pub p_ok : All (ProducerOk s.n) s.producers
  pub three_producers : length s.producers ≡ 3
  pub numbered : map (λ (p : Producer). p.id) s.producers ≡ 0 ∷ 1 ∷ 2 ∷ []
  pub c_ok : All (ConsumerOk s.n) s.consumers
  pub three_consumers : length s.consumers ≡ 3
  pub seen_size : length s.seen ≡ 3 * s.n
  pub flow :
      (y : ℕ)
      → get_or s.seen y 0 + sum_by (hand y) s.consumers + tally y (contents s.q)
        ≡ sum_by (has_put s.n y) s.producers
  pub total : sum_by got s.consumers + s.q.count ≡ sum_by put_by s.producers
  pub p_sleeps :
      sum_by asleep_put s.producers ≢ 0 → s.q.cap ≤ s.q.count + sum_by (ready_put s.n) s.producers
  pub c_sleeps :
      sum_by asleep_in_get s.consumers ≢ 0 → s.q.count ≤ sum_by (ready_get s.n) s.consumers

-- The turn returns, and keeps the invariant and the number of rounds.
abbrev pub Keeps : ℕ → Option System → Type 0
Keeps n r = (s : System) × (r ≡ some s) × Inv s × (s.n ≡ n)

-- Every value that was put is below ids * n.
put_by_bound :
    (n v : ℕ) (ps : List Producer) → All (ProducerOk n) ps → sum_by (has_put n v) ps ≢ 0 → v < 3 * n
put_by_bound n v [] all ne = absurd (ne refl)
put_by_bound n v (p ∷ ps) all ne = elim (ℕ_discrete (has_put n v p) 0) [
  | yes z ↦ put_by_bound n v ps all.1 (λ q. ne (omega (arith, z, q)))
  | no here ↦ below (p.id * n) p.i (id_le n p.id all.0.0) all.0.1 here
]
  where
    id_le : (n id : ℕ) → id < 3 → id * n + n ≤ 3 * n
    id_le n id lt = grind arith

    below : (a i : ℕ) → a + n ≤ 3 * n → i ≤ n → one_if (leb a v && ltb v (a + i)) ≢ 0 → v < 3 * n
    below a i le small ne = ground arith

-- How many of the producers put a value in all.
abbrev pub put_all : ℕ → ℕ → List ℕ → ℕ
put_all n v [] = 0
put_all n v (id ∷ ids) = one_if (leb (id * n) v && ltb v (id * n + n)) + put_all n v ids

put_all_le :
    (n v : ℕ) (ps : List Producer)
    → All (ProducerOk n) ps
    → sum_by (has_put n v) ps ≤ put_all n v (map (λ (p : Producer). p.id) ps)
put_all_le n v [] all = omega arith
put_all_le n v (p ∷ ps) all = omega (arith, more (p.id * n) p.i all.0.1, put_all_le n v ps all.1)
  where
    more : (a i : ℕ) → i ≤ n → one_if (leb a v && ltb v (a + i)) ≤ one_if (leb a v && ltb v (a + n))
    more a i le = ground arith

pub once : (n v : ℕ) → v < 3 * n → put_all n v (0 ∷ 1 ∷ 2 ∷ []) ≡ 1
once n v lt = ground arith

at_most_once : (n v : ℕ) → put_all n v (0 ∷ 1 ∷ 2 ∷ []) ≤ 1
at_most_once n v = ground arith

module _ (s : System) (inv : Inv s) where
  -- A value is put once at most, so it is in one place at most.
  pub put_once : (y : ℕ) → sum_by (has_put s.n y) s.producers ≤ 1
  put_once y = omega (
    arith,
    put_all_le s.n y s.producers inv.p_ok,
    ap (put_all s.n y) inv.numbered,
    at_most_once s.n y,
  )

  pub put_small : (y : ℕ) → sum_by (has_put s.n y) s.producers ≢ 0 → y < 3 * s.n
  put_small y ne = put_by_bound s.n y s.producers inv.p_ok ne

  -- No narrowing changes a value.
  pub value_of_eq :
      (p : Producer) → ProducerOk s.n p → p.i < s.n → value_of s.n p ≡ p.id * s.n + p.i
  value_of_eq p ok lt = exact (p.id * s.n) (id_le s.n p.id ok.0)
    where
      id_le : (n id : ℕ) → id < 3 → id * n + n ≤ 3 * n
      id_le n id lt = grind arith

      exact : (a : ℕ) → a + s.n ≤ 3 * s.n → add64 (a % 2 ^ 64) p.i % 2 ^ 32 ≡ a + p.i
      exact a le = omega (arith, inv.fits)

  pub seen_index_eq : (v : ℕ) → v < 3 * s.n → seen_index v ≡ some v
  seen_index_eq v lt = rw (lt→ltb v (2 ^ 31) (omega (arith, inv.fits))) refl
