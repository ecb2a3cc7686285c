-- ===== src/Rcu/Grace/Safety.antt =====
-- Every run of the readers and the writer.
use systems_drills.Base.{
  ℕ, ◌<◌, ◌≡◌, refl, ◌∙◌, subst, Option, none, some, List, [], ◌∷◌, arith, lt→ltb, ==_ne, some_inj,
}
use systems_drills.Base.Bits.{word}
use systems_drills.Rcu.Add.{IsRegion}
use systems_drills.Rcu.Grace.{
  ReaderAt, System, Turn, max_readers, turn, run_turns, start, read, write, outside, entered,
  inside, looked,
}
use systems_drills.Rcu.Grace.Invariant.{IsLive, ReaderOk, Inv}
use systems_drills.Rcu.Grace.Readers.{read_step-Inv}
use systems_drills.Rcu.Grace.Wait.{write_step-Inv}

-- A turn of one of the eight readers or of the writer, on 64-bit arguments.
abbrev pub IsTurn : Turn → Type 0
IsTurn (read id gpa) = (id < max_readers) × (gpa < word)
IsTurn (write memory rgn) = IsRegion rgn

abbrev pub AllTurns : List Turn → Type 0
AllTurns [] = Unit
AllTurns (t ∷ ts) = IsTurn t × AllTurns ts

turn-Inv :
    (s : System) (t : Turn) → Inv s → IsTurn t → (s' : System) × (turn s t ≡ some s') × Inv s'
unfolding turn
turn-Inv s (read id gpa) inv (lt, h) =
    rw (lt→ltb id max_readers lt) (read_step-Inv s id gpa inv lt h)
turn-Inv s (write memory rgn) inv words = write_step-Inv s memory rgn inv words

run_turns-Inv :
    (s : System) (ts : List Turn)
    → Inv s
    → AllTurns ts
    → (s' : System) × (run_turns s ts ≡ some s') × Inv s'
unfolding run_turns
run_turns-Inv s [] inv ok = (s, refl, inv)
run_turns-Inv s (t ∷ ts) inv ok =
    let (s1, e, inv1) = turn-Inv s t inv ok.0 in
    let (s2, f, inv2) = run_turns-Inv s1 ts inv1 ok.1 in (s2, (rw e) ∙ f, inv2)

start-Inv : Inv start
unfolding start
start-Inv = record {
  published = ([], refl, tt, omega arith);
  unused = λ a le. rw (==_ne 0 a (λ e. omega (arith, e)));
  readers_ok = λ id lt. refl;
  writer_ok = tt;
}

-- The table that a reader works on, from the load in `read_begin` to `read_end`.
abbrev pub held : ReaderAt → Option ℕ
held outside = none
held entered = none
held (inside t) = some t
held (looked t) = some t

held-IsLive :
    (s : System) (id seq t : ℕ) (at : ReaderAt)
    → ReaderOk s id seq at
    → held at ≡ some t
    → IsLive s.heap t
held-IsLive s id seq t outside ok e = cc
held-IsLive s id seq t entered ok e = cc
held-IsLive s id seq t (inside u) ok e = subst (IsLive s.heap) (some_inj e) ok.1
held-IsLive s id seq t (looked u) ok e = subst (IsLive s.heap) (some_inj e) ok.1

-- From the empty table, every interleaving of eight readers and the writer runs without an access to
-- a table that has been freed and without an access outside a table. In every state that it leads
-- to, the published table and every table that a reader holds between `read_begin` and `read_end`
-- are allocated, sorted, and at most 512 regions long.
pub run_turns-IsLive :
    (ts : List Turn)
    → AllTurns ts
    → (s : System) × (run_turns start ts ≡ some s)
      × IsLive s.heap s.current
      × ((id t : ℕ) → id < max_readers → held (s.readers id).at ≡ some t → IsLive s.heap t)
run_turns-IsLive ts ok =
    let (s, run, inv) = run_turns-Inv start ts start-Inv ok in
    (
      s,
      run,
      inv.published,
      λ id t lt e. held-IsLive s id (s.readers id).seq t (s.readers id).at (inv.readers_ok id lt) e,
    )
