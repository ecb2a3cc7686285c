-- ===== src/Ring/Refine.antt =====
-- A valid ring of rb.c and the bounded queue of the values that it holds.
use systems_drills.Base.{
  ℕ, ◌^◌, ◌<◌, ◌+◌, ◌≡◌, ◌≢◌, true, false, Option, some, List, [], ◌∷◌, arith, ℕ_discrete, ◌∙◌,
  length, set, get_or, ◌-◌, ◌%◌, suc, ap, ◌++◌, sym,
}
use systems_drills.Queue.Client.{Simulates, BoundedQueue, Op, run, run_spec, run_refines}
use systems_drills.Queue.{push, pop, push_full, push_room, pop_empty, pop-cons}
use systems_drills.Base.Bits.{add64, sub64}
use systems_drills.Base.Bits.Digit.{wrap-mod, two_pow_mono}
use systems_drills.Ring.{Ring, init_ring, ring_write, ring_read}
use systems_drills.Ring.Window.{window, length-window, window_of_ne_zero, window-set}
use systems_drills.Ring.Valid.{
  IsValid, used, Sized, init_ring-IsValid, ring_write-full, ring_write-stores, ring_read-empty,
  ring_read-takes, written-IsValid, taken-IsValid,
}

-- The values in the ring, oldest first.
abbrev pub contents : ℕ → Ring → List ℕ
contents k ring = window ring.buf k ring.tail (used ring)

pub length-contents : (k : ℕ) (ring : Ring) → length (contents k ring) ≡ used ring
length-contents k ring = length-window ring.buf k ring.tail (used ring)

-- Where the next value goes, seen from the tail.
head_slot :
    {k : ℕ} {ring : Ring} → IsValid k ring → ring.head % 2 ^ k ≡ (ring.tail + used ring) % 2 ^ k
head_slot {k} {ring} v =
    ap (λ (t : ℕ). t % 2 ^ k) (head_of v)
    ∙ wrap-mod k (ring.tail + used ring) (omega (arith, v.small))
  where
    head_of : IsValid k ring → ring.head ≡ (ring.tail + used ring) % 2 ^ 64
    head_of v = omega arith

holds-written :
    {k : ℕ} {ring : Ring} (x : ℕ)
    → IsValid k ring
    → used ring ≢ 2 ^ k
    → contents k
        (record ring { buf = set ring.buf (ring.head % 2 ^ k) x; head = add64 ring.head 1 })
      ≡ contents k ring ++ (x ∷ [])
holds-written {k} {ring} x v room =
    ap (window (set ring.buf (ring.head % 2 ^ k) x) k ring.tail) more
    ∙ window-set ring.buf k x (used ring) ring.tail (ring.head % 2 ^ k) (omega (arith, v.small))
        v.cells (omega (arith, v.room)) (head_slot v)
  where
    more : sub64 (add64 ring.head 1) ring.tail ≡ suc (used ring)
    more = omega (arith, v.head_word, v.tail_word, v.room, two_pow_mono k 60 v.small)

contents-cons :
    {k : ℕ} {ring : Ring}
    → IsValid k ring
    → used ring ≢ 0
    → contents k ring
      ≡ get_or ring.buf (ring.tail % 2 ^ k) 0
        ∷ contents k (record ring { tail = add64 ring.tail 1 })
contents-cons {k} {ring} v more =
    window_of_ne_zero ring.buf k ring.tail (used ring) more
    ∙ ap
        (λ (n : ℕ). get_or ring.buf (ring.tail % 2 ^ k) 0 ∷ window ring.buf k (add64 ring.tail 1) n)
        less
  where
    less : used ring - 1 ≡ sub64 ring.head (add64 ring.tail 1)
    less = omega (arith, v.head_word, v.tail_word)

-- `ring_write` is `push` on a queue of `capacity` values.
pub ring_write-Simulates :
    {k : ℕ} {ring : Ring} (x : ℕ)
    → IsValid k ring
    → Simulates (IsValid k) (contents k) (ring_write ring x) (push (2 ^ k) (contents k ring) x)
ring_write-Simulates {k} {ring} x v = elim (ℕ_discrete (used ring) (2 ^ k)) [
  | yes full ↦ record {
    state = ring;
    returns = rw (full_push full) (ring_write-full x v full);
    valid = v;
    holds = rw (full_push full);
  }
  | no room ↦ record {
    state = _;
    returns = rw (room_push room) (ring_write-stores x v room);
    valid = written-IsValid x v room;
    holds = rw (room_push room) (holds-written x v room);
  }
]
  where
    full_push : used ring ≡ 2 ^ k → push (2 ^ k) (contents k ring) x ≡ (false, contents k ring)
    full_push e = push_full (2 ^ k) _ x (length-contents k ring ∙ e)

    room_push :
        used ring ≢ 2 ^ k → push (2 ^ k) (contents k ring) x ≡ (true, contents k ring ++ (x ∷ []))
    room_push ne = push_room (2 ^ k) _ x (λ e. ne (sym (length-contents k ring) ∙ e))

-- `ring_read` is `pop`.
pub ring_read-Simulates :
    {k : ℕ} {ring : Ring}
    → IsValid k ring
    → Simulates (IsValid k) (contents k) (ring_read ring) (pop (contents k ring))
ring_read-Simulates {k} {ring} v = elim (ℕ_discrete (used ring) 0) [
  | yes empty ↦ record {
    state = ring;
    returns = rw (pop_empty (contents k ring) (nothing empty)) (ring_read-empty v empty);
    valid = v;
    holds = rw (pop_empty (contents k ring) (nothing empty)) (nothing empty);
  }
  | no more ↦ record {
    state = _;
    returns = rw (pop-cons _ _ _ (contents-cons v more)) (ring_read-takes v more);
    valid = taken-IsValid v more;
    holds = rw (pop-cons _ _ _ (contents-cons v more));
  }
]
  where
    nothing : used ring ≡ 0 → contents k ring ≡ []
    nothing e = rw e

-- The two calls and what they promise, for the clients of a ring of `2 ^ k` cells.
abbrev pub spsc : ℕ → BoundedQueue Ring
spsc k = record {
  write = ring_write;
  read = ring_read;
  Valid = IsValid k;
  contents = contents k;
  cap = 2 ^ k;
  write-Simulates = λ ring x v. ring_write-Simulates x v;
  read-Simulates = λ ring v. ring_read-Simulates v;
}

-- On a ring that `init_ring` made for less than 2 ^ 61 cells, every sequence of calls returns, and
-- answers as the same calls on an empty queue bounded by the capacity.
pub init_ring-run :
    (malloc : ℕ → Option (List ℕ)) (capacity : ℕ) (ring : Ring) (ops : List Op)
    → Sized malloc
    → capacity < 2 ^ 61
    → init_ring malloc capacity ≡ some ring
    → run ring_write ring_read ring ops ≡ some (run_spec capacity [] ops)
init_ring-run malloc capacity ring ops sized small e =
    let (k, v, c, h, t) = init_ring-IsValid malloc capacity sized small e in
    let u : used ring ≡ 0 = omega arith in
    run_refines (spsc k) ops v
    ∙ ap (λ (n : ℕ). some (run_spec n (contents k ring) ops)) (sym v.power ∙ c)
    ∙ ap (λ (n : ℕ). some (run_spec capacity (window ring.buf k ring.tail n) ops)) u
