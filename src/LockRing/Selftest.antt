-- ===== src/LockRing/Selftest.antt =====
-- `test_single_thread` of rb_lock.c, and `main` up to it. A failed `check` ends the program: `none`.
-- The counters stay below 2 ^ 63, so that their sums do not wrap.
use native.Mathlib.Nat.{zero-add, add-zero}
use systems_drills.Base.{
  ℕ, zero, suc, ◌+◌, ◌*◌, ◌/◌, ◌^◌, ◌≤◌, ◌<◌, ◌≡◌, refl, sym, ap, ◌∙◌, subst, Bool, true, Option,
  none, some, List, arith, ◌==◌, ==_iff, if◌then◌else◌, ◌>>=◌,
}
use systems_drills.Base.Int.{ℤ}
use systems_drills.Base.Bits.Digit.{two_pow-pos}
use systems_drills.Ring.{Ring}
use systems_drills.LockRing.{LockRing, ring_try_write, ring_try_read, init_ring, wanted_capacity}
use systems_drills.LockRing.Calls.{
  Holds, unlocked, ring_try_write-full, ring_try_write-stores, ring_try_read-empty,
  ring_try_read-takes,
}

abbrev pub check : Bool → LockRing → Option LockRing
check ok s = if ok then some s else none

-- The check of what a read returned.
abbrev pub check_value : Option ℕ → ℕ → LockRing → Option LockRing
check_value none v s = none
check_value (some x) v s = check (x == v) s

abbrev pub check_empty : Option ℕ → LockRing → Option LockRing
check_empty none s = some s
check_empty (some x) s = none

unfoldable pub refuses_read : LockRing → Option LockRing
refuses_read s = do (out, s') ← ring_try_read s; check_empty out s'

unfoldable pub refuses_write : LockRing → Option LockRing
refuses_write s = do (ok, s') ← ring_try_write s 999; if ok then none else some s'

-- A loop of `m` writes of the next number.
unfoldable pub fill : ℕ → ℕ → LockRing → Option LockRing
fill zero v s = some s
fill (suc m) v s = do (ok, s') ← ring_try_write s v; s'' ← check ok s'; fill m (v + 1) s''

-- A loop of `m` reads.
unfoldable pub drain : ℕ → ℕ → LockRing → Option LockRing
drain zero v s = some s
drain (suc m) v s = do (out, s') ← ring_try_read s; s'' ← check_value out v s'; drain m (v + 1) s''

-- A loop of `m` rounds of one write and one read.
unfoldable pub wrap_around : ℕ → ℕ → ℕ → LockRing → Option (ℕ × ℕ × LockRing)
wrap_around zero next_in next_out s = some (next_in, next_out, s)
wrap_around (suc m) next_in next_out s = do
  s' ← fill 1 next_in s
  s'' ← drain 1 next_out s'
  wrap_around m (next_in + 1) (next_out + 1) s''

-- The reads until one fails.
unfoldable pub drain_all : ℕ → ℕ → LockRing → Option (ℕ × LockRing)
drain_all zero next_out s = none
drain_all (suc fuel) next_out s = do
  (out, s') ← ring_try_read s
  elim out [
    | none ↦ some (next_out, s')
    | some x ↦ do s'' ← check (x == next_out) s'; drain_all fuel (next_out + 1) s''
  ]

-- No more values than the capacity are in the ring: one read more finds it empty.
unfoldable pub test_single_thread : LockRing → Option LockRing
test_single_thread s = do
  s1 ← refuses_read s
  s2 ← fill s.ring.capacity 0 s1
  s3 ← refuses_write s2
  s4 ← drain s.ring.capacity 0 s3
  s5 ← refuses_read s4
  s6 ← fill (s.ring.capacity / 2) 0 s5
  (next_in, next_out, s7) ← wrap_around (5 * s.ring.capacity) (s.ring.capacity / 2) 0 s6
  (last, s8) ← drain_all (suc s.ring.capacity) next_out s7
  check (next_in == last) s8

unfoldable pub main_ring : (ℕ → Option (List ℕ)) → Option ℤ → Option LockRing
main_ring malloc argument = do
  capacity ← wanted_capacity argument
  s ← init_ring malloc capacity
  test_single_thread s

same_number : (x : ℕ) → (x == x) ≡ true
same_number x = (==_iff x x).1 refl

-- A call that ends with the ring unlocked and `n` numbers from `a` on in it.
abbrev pub Leaves : ℕ → ℕ → ℕ → Option LockRing → Type 0
Leaves k a n r = (ring : Ring) × (r ≡ some (unlocked ring)) × Holds k a n ring

Holds-none : {k a : ℕ} {ring : Ring} (b : ℕ) → Holds k a 0 ring → Holds k b 0 ring
Holds-none b h = record { valid = h.valid; values = h.values }

refuses_read-Holds :
    {k a : ℕ} {ring : Ring} → Holds k a 0 ring → refuses_read (unlocked ring) ≡ some (unlocked ring)
unfolding refuses_read
refuses_read-Holds h = rw (ring_try_read-empty h refl) refl

fill-Holds :
    (k a m n : ℕ) (ring : Ring)
    → Holds k a n ring
    → n + m ≤ 2 ^ k
    → Leaves k a (n + m) (fill m (a + n) (unlocked ring))
unfolding fill
fill-Holds k a zero n ring h room = (ring, refl, subst (λ i. Holds k a i ring) (sym (add-zero n)) h)
fill-Holds k a (suc m) n ring h room =
    let (ring', e, h') = ring_try_write-stores h (omega arith) in
    let (end, r, done) = fill-Holds k a m (suc n) ring' h' (omega arith) in
    (
      end,
      rw e (ap (λ v. fill m v (unlocked ring')) (omega arith) ∙ r),
      subst (λ i. Holds k a i end) (omega arith) done,
    )

drain-Holds :
    (k a m n : ℕ) (ring : Ring)
    → Holds k a (m + n) ring
    → Leaves k (a + m) n (drain m a (unlocked ring))
unfolding drain
drain-Holds k a zero n ring h = (
  ring,
  refl,
  subst (λ i. Holds k i n ring) (sym (add-zero a)) (subst (λ i. Holds k a i ring) (zero-add n) h),
)
drain-Holds k a (suc m) n ring h =
    let (ring', e, h') = ring_try_read-takes (subst (λ i. Holds k a i ring) more h) in
    let (end, r, done) = drain-Holds k (suc a) m n ring' h' in
    (
      end,
      rw (e, same_number a) (ap (λ v. drain m v (unlocked ring')) next_value ∙ r),
      subst (λ i. Holds k i n end) last done,
    )
  where
    more : suc m + n ≡ suc (m + n)
    more = omega arith

    next_value : a + 1 ≡ suc a
    next_value = omega arith

    last : suc a + m ≡ a + suc m
    last = omega arith

wrap_around-Holds :
    (k a n m : ℕ) (ring : Ring)
    → Holds k a n ring
    → n < 2 ^ k
    → (end : Ring) × (wrap_around m (a + n) a (unlocked ring)
        ≡ some (a + m + n, a + m, unlocked end))
      × Holds k (a + m) n end
unfolding wrap_around
wrap_around-Holds k a n zero ring h room = (
  ring,
  ap (λ i. some (i + n, i, unlocked ring)) (sym (add-zero a)),
  subst (λ i. Holds k i n ring) (sym (add-zero a)) h,
)
wrap_around-Holds k a n (suc m) ring h room =
    let (more, w, h1) = fill-Holds k a 1 n ring h (omega arith) in
    let (less, r, h2) = drain-Holds k a 1 n more (subst (λ i. Holds k a i more) (omega arith) h1) in
    let (end, e, done) = wrap_around-Holds k (a + 1) n m less h2 room in
    (
      end,
      rw (w, r)
          (ap (λ i. wrap_around m i (a + 1) (unlocked less)) (omega arith)
            ∙ e
            ∙ ap (λ i. some (i + n, i, unlocked end)) (omega arith)),
      subst (λ i. Holds k i n end) (omega arith) done,
    )

drain_all-Holds :
    (k a n fuel : ℕ) (ring : Ring)
    → Holds k a n ring
    → n < fuel
    → (end : Ring) × (drain_all fuel a (unlocked ring) ≡ some (a + n, unlocked end))
      × Holds k (a + n) 0 end
unfolding drain_all
drain_all-Holds k a n zero ring h lt = absurd (omega arith)
drain_all-Holds k a zero (suc fuel) ring h lt = (
  ring,
  rw (ring_try_read-empty h refl) (ap (λ i. some (i, unlocked ring)) (sym (add-zero a))),
  subst (λ i. Holds k i 0 ring) (sym (add-zero a)) h,
)
drain_all-Holds k a (suc n) (suc fuel) ring h lt =
    let (less, r, h') = ring_try_read-takes h in
    let (end, e, done) = drain_all-Holds k (suc a) n fuel less h' (omega arith) in
    (
      end,
      rw (r, same_number a)
          (ap (λ i. drain_all fuel i (unlocked less)) (omega arith)
            ∙ e
            ∙ ap (λ i. some (i, unlocked end)) (omega arith)),
      subst (λ i. Holds k i 0 end) (omega arith) done,
    )

-- The whole test, on an empty ring.
pub test_single_thread-Holds :
    (k a : ℕ) (ring : Ring)
    → Holds k a 0 ring
    → (b : ℕ) × Leaves k b 0 (test_single_thread (unlocked ring))
unfolding test_single_thread refuses_write
test_single_thread-Holds k a ring h =
    let cap = ring.capacity in
    let power : cap ≡ 2 ^ k = h.valid.power in
    let (r2, e2, h2) = fill-Holds k 0 cap 0 ring (Holds-none 0 h) (omega (arith, power)) in
    let full_ring : Holds k 0 cap r2 = subst (λ i. Holds k 0 i r2) (zero-add cap) h2 in
    let (r4, e4, h4) =
      drain-Holds k 0 cap 0 r2 (subst (λ i. Holds k 0 i r2) (omega arith) full_ring) in
    let (r6, e6, h6) = fill-Holds k 0 (cap / 2) 0 r4 (Holds-none 0 h4) (omega (arith, power)) in
    let half : Holds k 0 (cap / 2) r6 = subst (λ i. Holds k 0 i r6) (zero-add (cap / 2)) h6 in
    let (r7, e7, h7) =
      wrap_around-Holds k 0 (cap / 2) (5 * cap) r6 half (omega (arith, power, two_pow-pos k)) in
    let (r8, e8, h8) = drain_all-Holds k (0 + 5 * cap) (cap / 2) (suc cap) r7 h7 (omega arith) in
    let from_half : wrap_around (5 * cap) (cap / 2) 0 (unlocked r6) ≡ _ =
      ap (λ i. wrap_around (5 * cap) i 0 (unlocked r6)) (sym (zero-add (cap / 2))) ∙ e7 in
    (
      0 + 5 * cap + cap / 2,
      (
        r8,
        rw
            (
              refuses_read-Holds h,
              e2,
              ring_try_write-full full_ring 999 power,
              e4,
              refuses_read-Holds h4,
              e6,
              from_half,
              e8,
              same_number (0 + 5 * cap + cap / 2),
            )
            refl,
        h8,
      ),
    )
