-- ===== src/LockRing/Startup.antt =====
-- `main` of rb_lock.c from its argument to the end of the single-threaded test.
use native.Mathlib.Nat.{pow-suc}
use systems_drills.Base.{
  ℕ, suc, ◌^◌, ◌≤◌, ◌<◌, ◌≡◌, ◌≢◌, refl, sym, ap, ◌∙◌, subst, bit_and, Option, none, some, List,
  arith, ==_iff, ==_ne, dec_lt,
}
use systems_drills.Base.Int.{ℤ, pos, negsuc}
use systems_drills.Base.Bits.{sub64, mul64}
use systems_drills.Base.Bits.Digit.{two_pow-pos, two_pow_mono, pow_test_iff}
use systems_drills.Ring.{Ring}
use systems_drills.Ring.Valid.{IsValid, Sized, init_ring-IsValid}
use systems_drills.Ring.Pow2.{next_pow2_least}
use systems_drills.LockRing.{init_ring, next_pow2, wanted_capacity}
use systems_drills.LockRing.Calls.{Holds, unlocked}
use systems_drills.LockRing.Selftest.{main_ring, test_single_thread-Holds, Leaves}

-- An allocator that has enough memory.
abbrev pub Serves : (ℕ → Option (List ℕ)) → Type 0
Serves malloc = (n : ℕ) → n ≤ 2 ^ 63 → (b : List ℕ) × (malloc n ≡ some b)

-- The arguments for which the size of the ring in bytes fits a word.
abbrev pub Reasonable : Option ℤ → Type 0
Reasonable none = Unit
Reasonable (some (negsuc c)) = ⊥
Reasonable (some (pos c)) = (c ≢ 0) × (c ≤ 2 ^ 60)

same_pow2 : (c : ℕ) → next_pow2 c ≡ systems_drills.Ring.next_pow2 c
unfolding next_pow2 systems_drills.Ring.next_pow2
same_pow2 c = refl

wanted_capacity-Reasonable :
    (argument : Option ℤ)
    → Reasonable argument
    → (k : ℕ) × (k ≤ 60) × (wanted_capacity argument ≡ some (2 ^ k))
unfolding wanted_capacity
wanted_capacity-Reasonable none ok = (10, omega arith, refl)
wanted_capacity-Reasonable (some (negsuc c)) ok = absurd ok
wanted_capacity-Reasonable (some (pos c)) (nz, le) =
    let (k, _, e, _, least) = next_pow2_least c (omega arith) in
    (k, exponent_small k (least 60 le), rw (==_ne c 0 nz) (ap some (same_pow2 c ∙ e)))
  where
    exponent_small : (k : ℕ) → 2 ^ k ≤ 2 ^ 60 → k ≤ 60
    exponent_small k h = elim (dec_lt 60 k) [
      | yes above ↦ absurd (omega (arith, two_pow_mono 61 k (omega arith)))
      | no below ↦ omega arith
    ]

two_pow_inj : (j k : ℕ) → 2 ^ j ≡ 2 ^ k → j ≡ k
two_pow_inj j k e = elim (dec_lt j k) [
  | yes below ↦ absurd (omega (arith, two_pow_mono (suc j) k below, pow-suc 2 j, two_pow-pos j))
  | no at_least ↦ elim (dec_lt k j) [
    | yes above ↦ absurd (omega (arith, two_pow_mono (suc k) j above, pow-suc 2 k, two_pow-pos k))
    | no at_most ↦ omega arith
  ]
]

-- On a power of two both programs make the same ring.
unfoldable fresh : ℕ → List ℕ → Ring
fresh capacity b = record {
  capacity = capacity;
  mask = sub64 capacity 1;
  buf = b;
  head = 0;
  tail = 0;
}

module _ (malloc : ℕ → Option (List ℕ)) (k : ℕ) (small : k ≤ 60) (b : List ℕ)
    (served : malloc (mul64 (2 ^ k) 8) ≡ some b) where
  not_zero : 2 ^ k ≢ 0
  not_zero e = absurd (omega (arith, e, two_pow-pos k))

  tested : bit_and (2 ^ k) (sub64 (2 ^ k) 1) ≡ 0
  tested =
      ap (bit_and (2 ^ k)) (omega (arith, two_pow-pos k, two_pow_mono k 60 small))
      ∙ (pow_test_iff (2 ^ k) not_zero).1 (k, refl)

  init_ring-fresh : init_ring malloc (2 ^ k) ≡ some (unlocked (fresh (2 ^ k) b))
  unfolding init_ring fresh
  init_ring-fresh =
      rw (==_ne (2 ^ k) 0 not_zero, (==_iff (bit_and (2 ^ k) (sub64 (2 ^ k) 1)) 0).1 tested, served)
        refl

  same_fresh : systems_drills.Ring.init_ring malloc (2 ^ k) ≡ some (fresh (2 ^ k) b)
  unfolding systems_drills.Ring.init_ring fresh
  same_fresh =
      rw (==_ne (2 ^ k) 0 not_zero, (==_iff (bit_and (2 ^ k) (sub64 (2 ^ k) 1)) 0).1 tested, served)
        refl

  -- The new ring is valid and empty.
  fresh-Holds : Sized malloc → Holds k 0 0 (fresh (2 ^ k) b)
  unfolding fresh
  fresh-Holds sized = by_parts (init_ring-IsValid malloc (2 ^ k) sized below same_fresh)
    where
      below : 2 ^ k < 2 ^ 61
      below = omega (arith, two_pow_mono k 60 small)

      by_parts :
          (j : ℕ) × IsValid j (fresh (2 ^ k) b)
            × ((fresh (2 ^ k) b).capacity ≡ 2 ^ k)
            × ((fresh (2 ^ k) b).head ≡ 0)
            × ((fresh (2 ^ k) b).tail ≡ 0)
          → Holds k 0 0 (fresh (2 ^ k) b)
      by_parts (j, v, c, h, t) =
          let valid : IsValid k (fresh (2 ^ k) b) =
            subst (λ i. IsValid i (fresh (2 ^ k) b)) (two_pow_inj j k (sym v.power ∙ c)) v in
          record { valid = valid; values = refl }

-- With an allocator that has memory, and with no argument or one from 1 to 2 ^ 60, `main` gets a
-- ring, every check of the single-threaded test succeeds on it, and the test leaves it valid and
-- empty.
pub main_ring_lem :
    (malloc : ℕ → Option (List ℕ)) (argument : Option ℤ)
    → Sized malloc
    → Serves malloc
    → Reasonable argument
    → (k : ℕ) × (b : ℕ) × Leaves k b 0 (main_ring malloc argument)
unfolding main_ring
main_ring_lem malloc argument sized serves ok =
    let (k, small, wanted) = wanted_capacity-Reasonable argument ok in
    let (b, served) = serves (mul64 (2 ^ k) 8) (omega (arith, two_pow_mono k 60 small)) in
    let (a, (ring, e, h)) =
      test_single_thread-Holds k 0 (fresh (2 ^ k) b) (fresh-Holds malloc k small b served sized) in
    (k, a, (ring, rw (wanted, init_ring-fresh malloc k small b served) e, h))
