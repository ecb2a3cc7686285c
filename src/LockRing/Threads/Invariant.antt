-- ===== src/LockRing/Threads/Invariant.antt =====
-- The invariant of the two threads, the mutex and the ring.
use systems_drills.Base.{
  ℕ, suc, ◌+◌, ◌^◌, ◌≤◌, ◌<◌, ◌≡◌, ◌≢◌, inl, inr, refl, sym, subst, Bool, true, false, Option, some,
  arith, ltb, ltb→lt, Bool-cases,
}
use systems_drills.LockRing.Calls.{Holds}
use systems_drills.LockRing.Threads.{
  Place, System, before_lock, testing, asleep, ended, before_unlock, next_place, woken,
}

-- The thread has the mutex.
abbrev pub InLock : Place → Type 0
InLock testing = Unit
InLock (before_unlock v) = Unit
InLock before_lock = ⊥
InLock asleep = ⊥
InLock ended = ⊥

-- The values that the thread has written or read.
abbrev pub count : ℕ → Place → ℕ
count i (before_unlock v) = suc i
count i before_lock = i
count i testing = i
count i asleep = i
count i ended = i

abbrev pub RoundOk : ℕ → ℕ → Place → Type 0
RoundOk n i (before_unlock v) = (i < n) × (v ≡ i)
RoundOk n i before_lock = i < n
RoundOk n i testing = i < n
RoundOk n i asleep = i < n
RoundOk n i ended = i ≡ n

-- At most one thread has the mutex, and the mutex knows.
pub data Owner (locked : Bool) (p c : Place) : Type 0 where
  nobody : locked ≡ false → ¬ InLock p → ¬ InLock c → Owner locked p c
  producer_has : locked ≡ true → InLock p → ¬ InLock c → Owner locked p c
  consumer_has : locked ≡ true → ¬ InLock p → InLock c → Owner locked p c

-- `m` values are in the ring. A sleeping producer still finds it full, a sleeping consumer empty.
pub record Inv (k : ℕ) (s : System) : Type 0 where
  pub m : ℕ
  pub stored : Holds k (count s.c_i s.c_at) m s.ring
  pub flow : count s.p_i s.p_at ≡ count s.c_i s.c_at + m
  pub p_ok : RoundOk s.n s.p_i s.p_at
  pub c_ok : RoundOk s.n s.c_i s.c_at
  pub owner : Owner s.locked s.p_at s.c_at
  pub p_sleeps : s.p_at ≡ asleep → m ≡ 2 ^ k
  pub c_sleeps : s.c_at ≡ asleep → m ≡ 0

-- The turn returns, and keeps the invariant and the number of items.
abbrev pub Keeps : ℕ → ℕ → Option System → Type 0
Keeps k n r = (s : System) × (r ≡ some s) × Inv k s × (s.n ≡ n)

-- Waking a thread changes only whether it sleeps.
pub count-woken : (i : ℕ) (at : Place) → count i (woken at) ≡ count i at
count-woken i before_lock = refl
count-woken i testing = refl
count-woken i asleep = refl
count-woken i ended = refl
count-woken i (before_unlock v) = refl

pub RoundOk-woken : (n i : ℕ) (at : Place) → RoundOk n i at → RoundOk n i (woken at)
RoundOk-woken n i before_lock ok = ok
RoundOk-woken n i testing ok = ok
RoundOk-woken n i asleep ok = ok
RoundOk-woken n i ended ok = ok
RoundOk-woken n i (before_unlock v) ok = ok

pub InLock-woken : (at : Place) → InLock (woken at) ≡ InLock at
InLock-woken before_lock = refl
InLock-woken testing = refl
InLock-woken asleep = refl
InLock-woken ended = refl
InLock-woken (before_unlock v) = refl

pub woken_awake : (at : Place) → woken at ≢ asleep
woken_awake before_lock e = cc
woken_awake testing e = cc
woken_awake asleep e = cc
woken_awake ended e = cc
woken_awake (before_unlock v) e = cc

-- After a round.
pub count-next_place : (n i : ℕ) → count i (next_place n i) ≡ i
count-next_place n i = elim (Bool-cases (ltb i n)) [ inl e ↦ rw e refl | inr e ↦ rw e refl ]

pub RoundOk-next_place : (n i : ℕ) → i ≤ n → RoundOk n i (next_place n i)
RoundOk-next_place n i le = elim (Bool-cases (ltb i n)) [
  | inl more ↦ rw more (ltb→lt i n more)
  | inr done ↦ rw done (ground arith)
]

pub next_place_out : (n i : ℕ) → ¬ InLock (next_place n i)
next_place_out n i = elim (Bool-cases (ltb i n)) [ inl e ↦ rw e (λ b. b) | inr e ↦ rw e (λ b. b) ]

pub next_place_awake : (n i : ℕ) → next_place n i ≢ asleep
next_place_awake n i = elim (Bool-cases (ltb i n)) [
  | inl e ↦ rw e (λ q. cc)
  | inr e ↦ rw e (λ q. cc)
]

-- The owner, turn by turn.
pub nobody_in :
    {locked : Bool} {p c : Place} → Owner locked p c → locked ≡ false → (¬ InLock p) × (¬ InLock c)
nobody_in (nobody e np nc) f = (np, nc)
nobody_in (producer_has e in_p nc) f = absurd (cc (e, f))
nobody_in (consumer_has e np in_c) f = absurd (cc (e, f))

pub producer_alone : {locked : Bool} {p c : Place} → Owner locked p c → InLock p → ¬ InLock c
producer_alone (nobody e np nc) in_p = nc
producer_alone (producer_has e _ nc) in_p = nc
producer_alone (consumer_has e np in_c) in_p = absurd (np in_p)

pub consumer_alone : {locked : Bool} {p c : Place} → Owner locked p c → InLock c → ¬ InLock p
consumer_alone (nobody e np nc) in_c = np
consumer_alone (producer_has e in_p nc) in_c = absurd (nc in_c)
consumer_alone (consumer_has e np _) in_c = np

pub Owner-woken_consumer :
    {locked : Bool} {p : Place} (c : Place) → Owner locked p c → Owner locked p (woken c)
Owner-woken_consumer c (nobody e np nc) =
    nobody e np (subst (λ (T : Type 0). ¬ T) (sym (InLock-woken c)) nc)
Owner-woken_consumer c (producer_has e in_p nc) =
    producer_has e in_p (subst (λ (T : Type 0). ¬ T) (sym (InLock-woken c)) nc)
Owner-woken_consumer c (consumer_has e np in_c) =
    consumer_has e np (subst (λ (T : Type 0). T) (sym (InLock-woken c)) in_c)

pub Owner-woken_producer :
    {locked : Bool} (p : Place) {c : Place} → Owner locked p c → Owner locked (woken p) c
Owner-woken_producer p (nobody e np nc) =
    nobody e (subst (λ (T : Type 0). ¬ T) (sym (InLock-woken p)) np) nc
Owner-woken_producer p (producer_has e in_p nc) =
    producer_has e (subst (λ (T : Type 0). T) (sym (InLock-woken p)) in_p) nc
Owner-woken_producer p (consumer_has e np in_c) =
    consumer_has e (subst (λ (T : Type 0). ¬ T) (sym (InLock-woken p)) np) in_c
