-- ===== src/Ring/Valid.antt =====
-- The invariant of rb.c's `struct Ring`: what `init_ring` sets up and the two calls keep.
use native.Mathlib.Nat.{mod-lt}
use systems_drills.Base.{
  refl, sym, ==_iff, ==_ne, ℕ, suc, ◌-◌, ◌/◌, ◌%◌, ◌^◌, ◌≤◌, ◌<◌, bit_and, ◌≡◌, ◌≢◌, true, false,
  Option, none, some, List, arith, length, length-set, set, store?-eq-set, get_or,
  get_elem?-eq-get_or, dec_lt, Option-cases, inl, inr, store?-eq-none,
}
use systems_drills.Base.Bits.{word, add64, sub64, mul64, bit_and_mask}
use systems_drills.Base.Bits.Digit.{two_pow-pos, two_pow_mono, two_pow-mod, pow_test_iff}
use systems_drills.Ring.{Ring, init_ring, ring_write, ring_read}

-- The capacity is `2 ^ k` cells, all there; the indices are words at most a capacity apart.
pub record IsValid (k : ℕ) (ring : Ring) : Type 0 where
  pub small : k ≤ 60
  pub power : ring.capacity ≡ 2 ^ k
  pub masked : ring.mask ≡ 2 ^ k - 1
  pub cells : length ring.buf ≡ 2 ^ k
  pub head_word : ring.head < word
  pub tail_word : ring.tail < word
  pub room : sub64 ring.head ring.tail ≤ 2 ^ k

-- The number of items.
abbrev pub used : Ring → ℕ
used ring = sub64 ring.head ring.tail

-- What malloc documents: a block that it returns has the size asked for.
abbrev pub Sized : (ℕ → Option (List ℕ)) → Type 0
Sized malloc = (n : ℕ) (b : List ℕ) → malloc n ≡ some b → length b ≡ n / 8

exponent_lt : (k n : ℕ) → 2 ^ k < 2 ^ suc n → k ≤ n
exponent_lt k n h = elim (dec_lt k (suc n)) [
  | yes below ↦ omega arith
  | no above ↦ absurd (omega (arith, two_pow_mono (suc n) k (omega arith)))
]

power_cap : (k : ℕ) → k ≤ 60 → 2 ^ k ≤ 2 ^ 60
power_cap k h = two_pow_mono k 60 h

slot_head : {k : ℕ} {ring : Ring} → IsValid k ring → bit_and ring.head ring.mask ≡ ring.head % 2 ^ k
slot_head {k} {ring} v = rw v.masked (bit_and_mask k ring.head)

slot_tail : {k : ℕ} {ring : Ring} → IsValid k ring → bit_and ring.tail ring.mask ≡ ring.tail % 2 ^ k
slot_tail {k} {ring} v = rw v.masked (bit_and_mask k ring.tail)

-- Inside a valid ring no call faults: the exact result of each, branch by branch.
pub ring_write-full :
    {k : ℕ} {ring : Ring} (x : ℕ)
    → IsValid k ring
    → used ring ≡ 2 ^ k
    → ring_write ring x ≡ some (false, ring)
unfolding ring_write
ring_write-full {k} {ring} x v e = ground (arith, v.power)

pub ring_write-stores :
    {k : ℕ} {ring : Ring} (x : ℕ)
    → IsValid k ring
    → used ring ≢ 2 ^ k
    → ring_write ring x
      ≡ some
          (true, record ring { buf = set ring.buf (ring.head % 2 ^ k) x; head = add64 ring.head 1 })
unfolding ring_write
ring_write-stores {k} {ring} x v ne = ground (
  arith,
  slot_head v,
  store?-eq-set ring.buf (ring.head % 2 ^ k) x,
  mod-lt ring.head {m = 2 ^ k} (two_pow-pos k),
)

pub ring_read-empty :
    {k : ℕ} {ring : Ring} → IsValid k ring → used ring ≡ 0 → ring_read ring ≡ some (none, ring)
unfolding ring_read
ring_read-empty {k} {ring} v e = ground arith

pub ring_read-takes :
    {k : ℕ} {ring : Ring}
    → IsValid k ring
    → used ring ≢ 0
    → ring_read ring
      ≡ some
          (some (get_or ring.buf (ring.tail % 2 ^ k) 0), record ring { tail = add64 ring.tail 1 })
unfolding ring_read
ring_read-takes {k} {ring} v ne = ground (
  arith,
  slot_tail v,
  get_elem?-eq-get_or ring.buf (ring.tail % 2 ^ k) 0,
  mod-lt ring.tail {m = 2 ^ k} (two_pow-pos k),
)

-- The two successor states are valid.
pub written-IsValid :
    {k : ℕ} {ring : Ring} (x : ℕ)
    → IsValid k ring
    → used ring ≢ 2 ^ k
    → IsValid k (record ring { buf = set ring.buf (ring.head % 2 ^ k) x; head = add64 ring.head 1 })
written-IsValid {k} {ring} x v ne =
    ground (arith, length-set ring.buf (ring.head % 2 ^ k) x, power_cap k v.small)

pub taken-IsValid :
    {k : ℕ} {ring : Ring}
    → IsValid k ring
    → used ring ≢ 0
    → IsValid k (record ring { tail = add64 ring.tail 1 })
taken-IsValid {k} {ring} v ne = ground (arith, power_cap k v.small)

-- The ring that `init_ring` makes of a block.
abbrev fresh : ℕ → List ℕ → Ring
fresh capacity b = record { capacity = capacity; mask = capacity - 1; buf = b; head = 0; tail = 0 }

-- What a success of `init_ring` shows.
record Accepted (malloc : ℕ → Option (List ℕ)) (capacity : ℕ) (ring : Ring) : Type 0 where
  block : List ℕ
  power : (k : ℕ) × (capacity ≡ 2 ^ k)
  served : malloc (mul64 capacity 8) ≡ some block
  made : ring ≡ fresh capacity block

init_ring-Accepted :
    (malloc : ℕ → Option (List ℕ)) (capacity : ℕ) {ring : Ring}
    → capacity < word
    → init_ring malloc capacity ≡ some ring
    → Accepted malloc capacity ring
unfolding init_ring
init_ring-Accepted malloc capacity {ring} fits e = elim (Option-cases (malloc (mul64 capacity 8))) [
  | inl refused ↦ absurd (ground arith)
  | inr (b, served) ↦ record {
    block = b;
    power = (pow_test_iff capacity (ground arith)).0 (ground (arith, minus));
    served = served;
    made = ground (arith, minus);
  }
]
  where
    minus : capacity ≢ 0 → sub64 capacity 1 ≡ capacity - 1
    minus nz = omega arith

-- What `init_ring` accepts for a capacity whose size in bytes fits a word is a power of two, and
-- the new ring is valid and empty.
pub init_ring-IsValid :
    (malloc : ℕ → Option (List ℕ)) (capacity : ℕ) {ring : Ring}
    → Sized malloc
    → capacity < 2 ^ 61
    → init_ring malloc capacity ≡ some ring
    → (k : ℕ) × IsValid k ring × (ring.capacity ≡ capacity) × (ring.head ≡ 0) × (ring.tail ≡ 0)
init_ring-IsValid malloc capacity {ring} sized small e =
    let a = init_ring-Accepted malloc capacity (omega arith) e in
    let (k, p) = a.power in
    let cells : length a.block ≡ capacity = omega (arith, sized _ _ a.served) in
    let le : k ≤ 60 = exponent_lt k 60 (omega arith) in
    (
      k,
      ground (arith, a.made),
      ground (arith, a.made),
      ground (arith, a.made),
      ground (arith, a.made),
    )

ring_write-fault :
    (x : ℕ) (ring : Ring)
    → length ring.buf ≡ 0
    → used ring ≢ ring.capacity
    → ring_write ring x ≡ none
unfolding ring_write
ring_write-fault x ring e ne =
    ground (arith, store?-eq-none ring.buf (bit_and ring.head ring.mask) x)

-- For the capacities 2 ^ 61, 2 ^ 62 and 2 ^ 63 the size in bytes wraps to 0: if malloc serves the
-- empty request, `init_ring` succeeds all the same, its buffer has no cell, and the first write to
-- the ring is outside it.
pub init_ring_overflow :
    (malloc : ℕ → Option (List ℕ)) (k : ℕ) (block : List ℕ)
    → Sized malloc
    → 61 ≤ k
    → k ≤ 63
    → malloc 0 ≡ some block
    → (ring : Ring) × (init_ring malloc (2 ^ k) ≡ some ring)
      × (length ring.buf ≡ 0)
      × ((x : ℕ) → ring_write ring x ≡ none)
unfolding init_ring
init_ring_overflow malloc k block sized big small served =
    (fresh (2 ^ k) block, made, empty, λ x. ring_write-fault x (fresh (2 ^ k) block) empty not_full)
  where
    not_zero : 2 ^ k ≢ 0
    not_zero e = absurd (omega (arith, e, two_pow-pos k))

    minus : sub64 (2 ^ k) 1 ≡ 2 ^ k - 1
    minus = omega (arith, two_pow-pos k, two_pow_mono k 63 small)

    no_bytes : mul64 (2 ^ k) 8 ≡ 0
    no_bytes = omega (arith, two_pow-mod 61 k big)

    tested : bit_and (2 ^ k) (2 ^ k - 1) ≡ 0
    tested = (pow_test_iff (2 ^ k) not_zero).1 (k, refl)

    made : init_ring malloc (2 ^ k) ≡ some (fresh (2 ^ k) block)
    made =
        rw
          (
            ==_ne (2 ^ k) 0 not_zero,
            minus,
            (==_iff (bit_and (2 ^ k) (2 ^ k - 1)) 0).1 tested,
            no_bytes,
            served,
          )
          refl

    empty : length block ≡ 0
    empty = omega (arith, sized 0 block served)

    not_full : used (fresh (2 ^ k) block) ≢ 2 ^ k
    not_full e = not_zero (sym e)
