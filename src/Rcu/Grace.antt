-- ===== src/Rcu/Grace.antt =====
-- The readers and the writer of mock1_rcu.c, one shared access at a time, in any order.
-- The four accesses that the grace period rests on are sequentially consistent in the source, and a
-- table is not written once it is published; the locals of a thread that later steps use stand in
-- its place in the program. The address of a table is a number.
pub mod Invariant
pub mod Readers
pub mod Writer
pub mod Wait
pub mod Safety
use systems_drills.Base.{
  ℕ, zero, suc, ◌+◌, ◌%◌, Bool, true, false, Option, none, some, List, [], ◌∷◌, ltb, ◌==◌,
  if◌then◌else◌, ◌>>=◌,
}
use systems_drills.Base.Bits.{add64}
use systems_drills.Base.Update.{update}
use systems_drills.Rcu.{Region, AddResult, build, lookup}

abbrev pub max_readers : ℕ
max_readers = 8

-- A reader in `translate`: outside; after the store of `read_begin`; with the table that it loaded;
-- and with the lookup done, before `read_end`.
pub data ReaderAt : Type 0 where
  outside entered : ReaderAt
  inside looked : ℕ → ReaderAt

pub record Reader : Type 0 where
  pub seq : ℕ
  pub at : ReaderAt

-- The writer that has the mutex: none; with `new` built; in `wait_for_readers` before the load of
-- reader `i`'s `seq`; and in its inner loop, with `s`.
pub data WriterAt : Type 0 where
  idle : WriterAt
  publishing : (old new : ℕ) → WriterAt
  waiting : (old i : ℕ) → WriterAt
  spinning : (old i s : ℕ) → WriterAt

-- `heap` has the tables that are allocated; `next` is the address that malloc gives next.
pub record System : Type 0 where
  pub heap : ℕ → Option (List Region)
  pub next : ℕ
  pub current : ℕ
  pub readers : ℕ → Reader
  pub writer : WriterAt

pub data Turn : Type 0 where
  read : (id gpa : ℕ) → Turn
  write : Bool → Region → Turn

abbrev pub with_reader : System → ℕ → Reader → System
with_reader s id r = record s { readers = update s.readers id r }

-- The next step of a reader's `translate`. `none` is a table that has been freed, or a read outside.
unfoldable pub read_step : System → ℕ → ℕ → Option System
read_step s id gpa =
    let r = s.readers id in
    elim r.at [
      | outside ↦ some (with_reader s id (record { seq = add64 r.seq 1; at = ReaderAt.entered }))
      | entered ↦ some (with_reader s id (record { seq = r.seq; at = ReaderAt.inside s.current }))
      | inside t ↦ do
        table ← s.heap t
        found ← lookup table gpa
        some (with_reader s id (record { seq = r.seq; at = ReaderAt.looked t }))
      | looked t ↦ some (with_reader s id (record { seq = add64 r.seq 1; at = ReaderAt.outside }))
    ]

-- malloc and the copy, or the end of a call that is refused.
unfoldable pub begin_add : System → AddResult × List Region → System
begin_add s (AddResult.add_ok, new) = record s {
  heap = update s.heap s.next (some new);
  next = s.next + 1;
  writer = WriterAt.publishing s.current s.next;
}
begin_add s (AddResult.add_bad_size, new) = s
begin_add s (AddResult.add_wraps, new) = s
begin_add s (AddResult.add_overlap, new) = s
begin_add s (AddResult.add_full, new) = s
begin_add s (AddResult.add_nomem, new) = s

-- The next step of the writer from its place; the last arguments are those of the call that an idle
-- writer begins.
unfoldable pub write_from : WriterAt → System → Bool → Region → Option System
write_from idle s memory rgn = do
  old ← s.heap s.current
  built ← build memory old rgn
  some (begin_add s built)
write_from (publishing old new) s memory rgn =
    some (record s { current = new; writer = WriterAt.waiting old 0 })
write_from (waiting old i) s memory rgn =
    if i == max_readers
    then some (record s { heap = update s.heap old none; writer = WriterAt.idle })
    else if (s.readers i).seq % 2 == 1
    then some (record s { writer = WriterAt.spinning old i (s.readers i).seq })
    else some (record s { writer = WriterAt.waiting old (i + 1) })
write_from (spinning old i seen) s memory rgn =
    if (s.readers i).seq == seen
    then some s
    else some (record s { writer = WriterAt.waiting old (i + 1) })

unfoldable pub write_step : System → Bool → Region → Option System
write_step s memory rgn = write_from s.writer s memory rgn

unfoldable pub turn : System → Turn → Option System
turn s (read id gpa) = if ltb id max_readers then read_step s id gpa else none
turn s (write memory rgn) = write_step s memory rgn

unfoldable pub run_turns : System → List Turn → Option System
run_turns s [] = some s
run_turns s (t ∷ more) = do s' ← turn s t; run_turns s' more

-- `main` once the empty table is published.
unfoldable pub start : System
start = record {
  heap = update (λ _. none) 0 (some []);
  next = 1;
  current = 0;
  readers = λ _. record { seq = 0; at = ReaderAt.outside };
  writer = WriterAt.idle;
}
