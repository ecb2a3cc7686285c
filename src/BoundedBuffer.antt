-- ===== src/BoundedBuffer.antt =====
-- Interview/bounded_buffer.c: a bounded queue under a mutex and two condition variables, with
-- several producers and consumers. `none` is an access outside `buf`.
-- `bq_put` and `bq_get` are what a call does with the mutex, from a test of the `while` on: a result
-- of false or `none` is the wait on the condition variable, any other the update with its signal.
-- Threads.antt carries out the waits and the signals. The values are ints as their 32 bits.
pub mod Init
pub mod Refine
pub mod Threads
mod Tests
use systems_drills.Base.{
  ℕ, ◌+◌, ◌-◌, ◌*◌, ◌%◌, Bool, true, false, Option, none, some, List, [], ◌∷◌, ◌==◌, if◌then◌else◌,
  get_elem?, store?, ◌>>=◌,
}
use systems_drills.Base.Bits.{add64, sub64, mul64}

-- `buf` is the block of `malloc` as 4-byte cells; NULL has no cell. The mutex and the condition
-- variables are whether they are initialised.
pub record Bq : Type 0 where
  pub buf : List ℕ
  pub head : ℕ
  pub tail : ℕ
  pub count : ℕ
  pub cap : ℕ
  pub mutex : Bool
  pub cond_not_empty : Bool
  pub cond_not_full : Bool

-- The queue, and the number of blocks that malloc has given and that have not been freed.
pub record Store : Type 0 where
  pub q : Bq
  pub blocks : ℕ

-- free(q->buf). The pointer keeps its value; free of NULL does nothing.
abbrev pub free_buf : Store → Store
free_buf s = elim s.q.buf [ [] ↦ s | _ ∷ _ ↦ record s { blocks = s.blocks - 1 } ]

unfoldable pub bq_destroy : Store → Store
bq_destroy s =
    let q : Bq = record s.q { cond_not_full = false; cond_not_empty = false; mutex = false } in
    let freed : Store = free_buf (record s { q = q }) in record freed { q = record q { buf = [] } }

abbrev pub sizeof_int : ℕ
sizeof_int = 4

-- The labels of `bq_init`, each falling through to the next.
abbrev pub err_buf : Store → Bool × Store
err_buf s = let freed : Store = free_buf s in (false, record freed { q = record s.q { buf = [] } })

abbrev pub err_mutex : Store → Bool × Store
err_mutex s = err_buf (record s { q = record s.q { mutex = false } })

abbrev pub err_not_empty : Store → Bool × Store
err_not_empty s = err_mutex (record s { q = record s.q { cond_not_empty = false } })

-- The library calls are parameters: the allocator, and whether each of the three initialisations
-- of pthread objects succeeds.
unfoldable pub bq_init : (ℕ → Option (List ℕ)) → Bool → Bool → Bool → Store → ℕ → Bool × Store
bq_init malloc mutex_ok not_empty_ok not_full_ok s cap =
    let q0 : Bq = record s.q { head = 0; tail = 0; count = 0; cap = cap; buf = [] } in
    if cap == 0 then (false, s) else elim (malloc (mul64 cap sizeof_int)) [
      | none ↦ (false, record s { q = q0 })
      | some block ↦
          let q1 : Bq = record q0 { buf = block } in
          let s1 : Store = record { q = q1; blocks = s.blocks + 1 } in
          if mutex_ok
          then (let q2 : Bq = record q1 { mutex = true } in
              let s2 : Store = record s1 { q = q2 } in
              if not_empty_ok
              then (let q3 : Bq = record q2 { cond_not_empty = true } in
                  let s3 : Store = record s1 { q = q3 } in
                  if not_full_ok
                  then (true, record s1 { q = record q3 { cond_not_full = true } })
                  else err_not_empty s3)
              else err_mutex s2)
          else err_buf s1
    ]

-- `false` is the wait on cond_not_full, `true` comes with the signal of cond_not_empty.
unfoldable pub bq_put : Bq → ℕ → Option (Bool × Bq)
bq_put q v = if q.count == q.cap then some (false, q) else do
  buf ← store? q.buf q.head v
  some (true, record q { buf = buf; head = add64 q.head 1 % q.cap; count = add64 q.count 1 })

-- `none` in the result is the wait on cond_not_empty; a value comes with the signal of cond_not_full.
unfoldable pub bq_get : Bq → Option (Option ℕ × Bq)
bq_get q = if q.count == 0 then some (none, q) else do
  val ← get_elem? q.buf q.tail
  some (some val, record q { tail = add64 q.tail 1 % q.cap; count = sub64 q.count 1 })
