-- ===== src/LockRing/Threads/Safety.antt =====
-- Every run of the two threads.
use systems_drills.Base.{
  ℕ, ◌+◌, ◌^◌, ◌≤◌, ◌≡◌, ◌⊎◌, inl, inr, refl, ◌∙◌, subst, Bool, false, Option, some, List, [], ◌∷◌,
  arith,
}
use systems_drills.Base.Int.{ℤ}
use systems_drills.Base.Bits.Digit.{two_pow-pos}
use systems_drills.Ring.{Ring}
use systems_drills.Ring.Valid.{Sized}
use systems_drills.LockRing.Calls.{Holds, unlocked, Holds-le}
use systems_drills.LockRing.Selftest.{main_ring}
use systems_drills.LockRing.Startup.{Serves, Reasonable, main_ring_lem}
use systems_drills.LockRing.Threads.{
  Place, System, Turn, before_lock, testing, asleep, ended, before_unlock, turn, run_turns, start,
  produce, consume, interrupt_producer, interrupt_consumer,
}
use systems_drills.LockRing.Threads.Invariant.{
  InLock, count, RoundOk, Owner, nobody, producer_has, consumer_has, Inv, Keeps, RoundOk-next_place,
  next_place_out, next_place_awake,
}
use systems_drills.LockRing.Threads.Producer.{produce_from-Keeps, interrupt_producer-Inv}
use systems_drills.LockRing.Threads.Consumer.{consume_from-Keeps, interrupt_consumer-Inv}

turn-Keeps : (k : ℕ) (s : System) (t : Turn) → Inv k s → Keeps k s.n (turn s t)
unfolding turn
turn-Keeps k s produce inv = produce_from-Keeps k s inv s.p_at refl
turn-Keeps k s consume inv = consume_from-Keeps k s inv s.c_at refl
turn-Keeps k s interrupt_producer inv = (_, refl, interrupt_producer-Inv k s inv, refl)
turn-Keeps k s interrupt_consumer inv = (_, refl, interrupt_consumer-Inv k s inv, refl)

run_turns-Keeps :
    (k : ℕ) (s : System) (turns : List Turn) → Inv k s → Keeps k s.n (run_turns s turns)
unfolding run_turns
run_turns-Keeps k s [] inv = (s, refl, inv, refl)
run_turns-Keeps k s (t ∷ more) inv =
    let (s', e, inv', same) = turn-Keeps k s t inv in
    let (end, r, done, same') = run_turns-Keeps k s' more inv' in (end, rw e r, done, same' ∙ same)

start-Inv : (k n b : ℕ) (ring : Ring) → Holds k b 0 ring → Inv k (start ring n)
start-Inv k n b ring h = record {
  m = 0;
  stored = record { valid = h.valid; values = h.values };
  flow = omega arith;
  p_ok = RoundOk-next_place n 0 (omega arith);
  c_ok = RoundOk-next_place n 0 (omega arith);
  owner = nobody refl (next_place_out n 0) (next_place_out n 0);
  p_sleeps = λ e. absurd (next_place_awake n 0 e);
  c_sleeps = λ e. absurd (next_place_awake n 0 e);
}

-- The next turn of a thread in this place does something.
abbrev pub CanRun : Bool → Place → Type 0
CanRun locked before_lock = locked ≡ false
CanRun locked testing = Unit
CanRun locked (before_unlock v) = Unit
CanRun locked asleep = ⊥
CanRun locked ended = ⊥

not_both : {locked : Bool} {p c : Place} → Owner locked p c → InLock p → InLock c → ⊥
not_both (nobody e np nc) in_p in_c = np in_p
not_both (producer_has e _ nc) in_p in_c = nc in_c
not_both (consumer_has e np _) in_p in_c = np in_p

lock_free :
    {locked : Bool} {p c : Place} → Owner locked p c → ¬ InLock p → ¬ InLock c → locked ≡ false
lock_free (nobody e _ _) np nc = e
lock_free (producer_has e in_p _) np nc = absurd (np in_p)
lock_free (consumer_has e _ in_c) np nc = absurd (nc in_c)

-- Both have ended, or one can run.
someone_runs :
    (k n m p_i c_i : ℕ) (locked : Bool) (p c : Place)
    → Owner locked p c
    → RoundOk n p_i p
    → RoundOk n c_i c
    → count p_i p ≡ count c_i c + m
    → (p ≡ asleep → m ≡ 2 ^ k)
    → (c ≡ asleep → m ≡ 0)
    → (p ≡ ended) × (c ≡ ended) ⊎ CanRun locked p ⊎ CanRun locked c
someone_runs k n m p_i c_i locked testing c o pk ck f ps cs = inr (inl tt)
someone_runs k n m p_i c_i locked (before_unlock v) c o pk ck f ps cs = inr (inl tt)
someone_runs k n m p_i c_i locked before_lock testing o pk ck f ps cs = inr (inr tt)
someone_runs k n m p_i c_i locked before_lock (before_unlock v) o pk ck f ps cs = inr (inr tt)
someone_runs k n m p_i c_i locked before_lock before_lock o pk ck f ps cs =
    inr (inl (lock_free o (λ b. b) (λ b. b)))
someone_runs k n m p_i c_i locked before_lock asleep o pk ck f ps cs =
    inr (inl (lock_free o (λ b. b) (λ b. b)))
someone_runs k n m p_i c_i locked before_lock ended o pk ck f ps cs =
    inr (inl (lock_free o (λ b. b) (λ b. b)))
someone_runs k n m p_i c_i locked asleep testing o pk ck f ps cs = inr (inr tt)
someone_runs k n m p_i c_i locked asleep (before_unlock v) o pk ck f ps cs = inr (inr tt)
someone_runs k n m p_i c_i locked asleep before_lock o pk ck f ps cs =
    inr (inr (lock_free o (λ b. b) (λ b. b)))
someone_runs k n m p_i c_i locked asleep asleep o pk ck f ps cs =
    absurd (omega (arith, ps refl, cs refl, two_pow-pos k))
someone_runs k n m p_i c_i locked asleep ended o pk ck f ps cs = absurd (omega (arith, pk, ck, f))
someone_runs k n m p_i c_i locked ended testing o pk ck f ps cs = inr (inr tt)
someone_runs k n m p_i c_i locked ended (before_unlock v) o pk ck f ps cs = inr (inr tt)
someone_runs k n m p_i c_i locked ended before_lock o pk ck f ps cs =
    inr (inr (lock_free o (λ b. b) (λ b. b)))
someone_runs k n m p_i c_i locked ended asleep o pk ck f ps cs =
    absurd (omega (arith, pk, ck, f, cs refl))
someone_runs k n m p_i c_i locked ended ended o pk ck f ps cs = inl (refl, refl)

-- What holds in every state of a run.
pub record Sound (k n : ℕ) (s : System) : Type 0 where
  pub one_owner : ¬ (InLock s.p_at × InLock s.c_at)
  pub ahead : count s.c_i s.c_at ≤ count s.p_i s.p_at
  pub bounded : count s.p_i s.p_at ≤ count s.c_i s.c_at + 2 ^ k
  pub complete : s.c_at ≡ ended → s.c_i ≡ n
  pub goes_on :
      (s.p_at ≡ ended) × (s.c_at ≡ ended) ⊎ CanRun s.locked s.p_at ⊎ CanRun s.locked s.c_at

Inv-Sound : (k : ℕ) (s : System) → Inv k s → Sound k s.n s
Inv-Sound k s inv = record {
  one_owner = λ both. not_both inv.owner both.0 both.1;
  ahead = omega (arith, inv.flow);
  bounded = omega (arith, inv.flow, Holds-le inv.stored);
  complete = λ e. subst (RoundOk s.n s.c_i) e inv.c_ok;
  goes_on =
      someone_runs k s.n inv.m s.p_i s.c_i s.locked s.p_at s.c_at inv.owner inv.p_ok inv.c_ok
        inv.flow inv.p_sleeps inv.c_sleeps;
}

-- With an allocator that has memory, and with no argument or one from 1 to 2 ^ 60, `main` gets
-- through the first test; then, in whatever order the two threads run and whichever waits end by
-- themselves, no access is outside the buffer and every value read is the one expected, never have
-- both threads the mutex, the reads are at most the writes and at most a capacity behind, a
-- consumer that has ended has read all the items, and either both threads have ended or one of them
-- can run.
pub two_threads_lem :
    (malloc : ℕ → Option (List ℕ)) (argument : Option ℤ) (n : ℕ) (turns : List Turn)
    → Sized malloc
    → Serves malloc
    → Reasonable argument
    → (k : ℕ) × (ring : Ring) × (s : System) × (main_ring malloc argument ≡ some (unlocked ring))
      × (ring.capacity ≡ 2 ^ k)
      × (run_turns (start ring n) turns ≡ some s)
      × Sound k n s
two_threads_lem malloc argument n turns sized serves ok =
    let (k, b, (ring, e, h)) = main_ring_lem malloc argument sized serves ok in
    let (s, r, inv, same) = run_turns-Keeps k (start ring n) turns (start-Inv k n b ring h) in
    (k, ring, s, e, h.valid.power, r, subst (λ i. Sound k i s) same (Inv-Sound k s inv))
