-- ===== src/Ring.antt =====
-- SPSC_Ring_buffer/rb.c: the lock-free single-producer single-consumer ring.
-- A function that updates `*ring` returns the new ring; `none` is an access outside `buf`, which
-- C leaves undefined. The memory orders of the atomic accesses are not in this file: here a call
-- runs alone, and Ring/Threads.antt interleaves the accesses of two calls.
pub mod Pow2
pub mod Window
pub mod Valid
pub mod Refine
pub mod Threads
mod Tests
use systems_drills.Base.{
  ℕ, zero, suc, ◌-◌, ◌*◌, ◌/◌, ◌^◌, bit_and, bit_or, Bool, true, false, ◌||◌, not, Option, none,
  some, List, [], ◌==◌, ltb, leb, if◌then◌else◌, get_elem?, store?, ◌>>=◌,
}
use systems_drills.Base.Bits.{add64, sub64, mul64}

-- `struct Ring`. `buf` is the block that `malloc` returned, as 8-byte cells; NULL has no cell.
pub record Ring : Type 0 where
  pub capacity : ℕ
  pub mask : ℕ
  pub buf : List ℕ
  pub head : ℕ
  pub tail : ℕ

abbrev pub sizeof_cell : ℕ
sizeof_cell = 8

-- The allocator is a parameter: from a size in bytes to the cells of the block, `none` for NULL.
-- `none` in the result is the return value -1.
unfoldable pub init_ring : (ℕ → Option (List ℕ)) → ℕ → Option Ring
init_ring malloc capacity =
    if capacity == 0 || not (bit_and capacity (sub64 capacity 1) == 0) then none else do
      buf ← malloc (mul64 capacity sizeof_cell)
      some (record { capacity = capacity; mask = sub64 capacity 1; buf = buf; head = 0; tail = 0 })

unfoldable pub kill_ring : Ring → Ring
kill_ring ring = record ring { buf = [] }

-- `true` is a value stored, `false` a full ring.
unfoldable pub ring_write : Ring → ℕ → Option (Bool × Ring)
ring_write ring value =
    if sub64 ring.head ring.tail == ring.capacity then some (false, ring) else do
      buf ← store? ring.buf (bit_and ring.head ring.mask) value
      some (true, record ring { buf = buf; head = add64 ring.head 1 })

-- `some v` is a return of true with `*out = v`, `none` an empty ring.
unfoldable pub ring_read : Ring → Option (Option ℕ × Ring)
ring_read ring = if ring.head == ring.tail then some (none, ring) else do
  v ← get_elem? ring.buf (bit_and ring.tail ring.mask)
  some (some v, record ring { tail = add64 ring.tail 1 })

-- The loop of `next_pow2`. Seven tests end it: the shift goes 1, 2, 4, 8, 16, 32, 64.
unfoldable pub smear_loop : ℕ → ℕ → ℕ → ℕ
smear_loop zero shift c = c
smear_loop (suc fuel) shift c =
    let rest = smear_loop fuel (shift * 2) (bit_or c (c / 2 ^ shift)) in
    if ltb shift 64 then rest else c

unfoldable pub next_pow2 : ℕ → ℕ
next_pow2 c = if leb c 1 then 1 else add64 (smear_loop 7 1 (c - 1)) 1
