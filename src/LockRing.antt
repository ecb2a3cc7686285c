-- ===== src/LockRing.antt =====
-- SPSC_Ring_buffer/rb_lock.c: the ring of rb.c under a mutex, with two condition variables.
-- The five fields that it has in common with rb.c's `struct Ring` are that record. A function that
-- updates `*ring` returns the new ring; `none` is an access outside `buf`, a lock of a mutex that the
-- caller has itself, or, in the tests, a failed check.
-- The blocking calls are in LockRing/Threads.antt.
pub mod Calls
pub mod Selftest
pub mod Startup
pub mod Threads
mod Tests
use systems_drills.Base.{
  ℕ, zero, suc, ◌-◌, Bool, true, false, Option, none, some, List, [], ◌==◌, leb, ◌||◌, not,
  if◌then◌else◌, bit_and, get_elem?, store?, ◌>>=◌,
}
use systems_drills.Base.Bits.{add64, sub64, mul64}
use systems_drills.Base.Int.{ℤ, pos, negsuc}
use systems_drills.Ring.{Ring, sizeof_cell, smear_loop}

pub record LockRing : Type 0 where
  pub ring : Ring
  pub locked : Bool

unfoldable pub lock : LockRing → Option LockRing
lock s = if s.locked then none else some (record s { locked = true })

abbrev pub unlock : LockRing → LockRing
unlock s = record s { locked = false }

abbrev pub full : Ring → Bool
full ring = sub64 ring.head ring.tail == ring.capacity

abbrev pub empty : Ring → Bool
empty ring = ring.head == ring.tail

-- The two lines that store a value, and the two that take one.
unfoldable pub put : Ring → ℕ → Option Ring
put ring value = do
  buf ← store? ring.buf (bit_and ring.head ring.mask) value
  some (record ring { buf = buf; head = add64 ring.head 1 })

unfoldable pub take_out : Ring → Option (ℕ × Ring)
take_out ring = do
  value ← get_elem? ring.buf (bit_and ring.tail ring.mask)
  some (value, record ring { tail = add64 ring.tail 1 })

-- As for rb.c: the allocator is a parameter, and `none` is -1. The pthread initialisations return 0
-- on the systems that the program is for, and it does not look at what they return.
unfoldable pub init_ring : (ℕ → Option (List ℕ)) → ℕ → Option LockRing
init_ring malloc capacity =
    if capacity == 0 || not (bit_and capacity (sub64 capacity 1) == 0) then none else do
      buf ← malloc (mul64 capacity sizeof_cell)
      some (record {
        ring = record {
          capacity = capacity;
          mask = sub64 capacity 1;
          buf = buf;
          head = 0;
          tail = 0;
        };
        locked = false;
      })

unfoldable pub kill_ring : LockRing → LockRing
kill_ring s = record s { ring = record s.ring { buf = [] } }

unfoldable pub ring_try_write : LockRing → ℕ → Option (Bool × LockRing)
ring_try_write s value = do
  mine ← lock s
  if full mine.ring
      then some (false, unlock mine)
      else (do ring ← put mine.ring value; some (true, unlock (record mine { ring = ring })))

unfoldable pub ring_try_read : LockRing → Option (Option ℕ × LockRing)
ring_try_read s = do
  mine ← lock s
  if empty mine.ring then some (none, unlock mine) else (do
    (value, ring) ← take_out mine.ring
    some (some value, unlock (record mine { ring = ring })))

unfoldable pub next_pow2 : ℕ → ℕ
next_pow2 c = if leb c 1 then 1 else add64 (smear_loop 7 1 (c - 1)) 1

-- The capacity that `main` asks for: without an argument, and with what `atol` made of it.
unfoldable pub wanted_capacity : Option ℤ → Option ℕ
wanted_capacity none = some 1024
wanted_capacity (some (negsuc c)) = none
wanted_capacity (some (pos c)) = if c == 0 then none else some (next_pow2 c)
