-- ===== src/Rcu/Grace/Writer.antt =====
-- A step of the writer.
use systems_drills.Base.{
  ℕ, ◌≤◌, ◌<◌, ◌≡◌, ◌≢◌, inl, inr, refl, subst, sym, ap, ◌∙◌, Bool, Option, none, some, List,
  length, arith, ==_iff, ==_ne,
}
use systems_drills.Base.Update.{update}
use systems_drills.Rcu.{Region, AddResult, max_regions, build}
use systems_drills.Rcu.Lookup.{IsTable}
use systems_drills.Rcu.Add.{IsRegion, build_lem}
use systems_drills.Rcu.Grace.{
  ReaderAt, WriterAt, System, max_readers, begin_add, write_from, outside, entered, inside, looked,
  idle, publishing, waiting, spinning,
}
use systems_drills.Rcu.Grace.Invariant.{IsLive, Pending, Holds, ReaderOk, WriterOk, Inv}

-- What carries every reader over to a state with the same readers.
unfoldable pub Carries : System → System → Type 0
Carries s s' =
    (id seq t : ℕ)
    → id < max_readers
    → seq ≡ (s.readers id).seq
    → Holds s id seq t
    → Holds s' id seq t

carry_at :
    (s s' : System) (id seq : ℕ)
    → ((t : ℕ) → Holds s id seq t → Holds s' id seq t)
    → (at : ReaderAt) → ReaderOk s id seq at
    → ReaderOk s' id seq at
carry_at s s' id seq keep outside ok = ok
carry_at s s' id seq keep entered ok = ok
carry_at s s' id seq keep (inside t) ok = keep t ok
carry_at s s' id seq keep (looked t) ok = keep t ok

carry :
    (s s' : System)
    → Inv s
    → Carries s s'
    → (id : ℕ) → id < max_readers
    → ReaderOk s' id (s.readers id).seq (s.readers id).at
unfolding Carries
carry s s' inv keep id lt =
    carry_at s s' id (s.readers id).seq (λ t. keep id (s.readers id).seq t lt refl)
      (s.readers id).at (inv.readers_ok id lt)

-- A fresh address is not that of a table in use.
live_ne : (s : System) (t : ℕ) → Inv s → IsLive s.heap t → s.next ≢ t
live_ne s t inv (table, at, ok, short) e = cc (inv.unused t (omega (arith, e)), at)

IsLive-alloc :
    (s : System) (t : ℕ) (new : List Region)
    → Inv s
    → IsLive s.heap t
    → IsLive (update s.heap s.next (some new)) t
IsLive-alloc s t new inv live = rw (==_ne s.next t (live_ne s t inv live)) live

IsLive-free :
    (heap : ℕ → Option (List Region)) (old t : ℕ)
    → old ≢ t
    → IsLive heap t
    → IsLive (update heap old none) t
IsLive-free heap old t ne live = rw (==_ne old t ne) live

-- A call that an idle writer begins: refused, or with the new table built.
begin_add-Inv :
    (s : System) (new : List Region)
    → Inv s
    → s.writer ≡ idle
    → IsTable new
    → length new ≤ max_regions
    → Inv (begin_add s (AddResult.add_ok, new))
unfolding begin_add Carries
begin_add-Inv s new inv e table short = record {
  published = IsLive-alloc s s.current new inv inv.published;
  unused = λ a le. rw (==_ne s.next a (λ q. omega (arith, q))) (inv.unused a (omega arith));
  readers_ok = carry s (begin_add s (AddResult.add_ok, new)) inv keep;
  writer_ok = (
    refl,
    live_ne s s.current inv inv.published,
    (new, rw ((==_iff s.next s.next).1 refl), table, short),
  );
}
  where
    keep :
        (id seq t : ℕ)
        → id < max_readers
        → seq ≡ (s.readers id).seq
        → Holds s id seq t
        → Holds (begin_add s (AddResult.add_ok, new)) id seq t
    keep id seq t lt same (odd, live, inl now) = (odd, IsLive-alloc s t new inv live, inl now)
    keep id seq t lt same (odd, live, inr pending) =
        let none_pending = rw e at pending in absurd none_pending

write_from-idle :
    (s : System) (memory : Bool) (rgn : Region) (old : List Region)
    (built : AddResult × List Region)
    → s.heap s.current ≡ some old
    → build memory old rgn ≡ some built
    → write_from idle s memory rgn ≡ some (begin_add s built)
unfolding write_from
write_from-idle s memory rgn old built f g = rw (f, g)

abbrev pub StepsFrom : WriterAt → System → Bool → Region → Type 0
StepsFrom w s memory rgn = (s' : System) × (write_from w s memory rgn ≡ some s') × Inv s'

pub idle-Steps :
    (s : System) (memory : Bool) (rgn : Region)
    → Inv s
    → IsRegion rgn
    → s.writer ≡ idle
    → StepsFrom idle s memory rgn
unfolding begin_add
idle-Steps s memory rgn inv words e =
    let (old, at, table, short) = inv.published in
    let (res, new, run, outcome) = build_lem memory old rgn table short words in
    let begun = write_from-idle s memory rgn old (res, new) at run in
    elim outcome [
      | inl (ok, fine, extends) ↦ (
        begin_add s (AddResult.add_ok, new),
        begun ∙ ap (λ z. some (begin_add s (z, new))) ok,
        begin_add-Inv s new inv e extends.table (omega (arith, extends.longer, fine.room)),
      )
      | inr (bad, refused, same) ↦ (s, begun ∙ ap some (begin_add-refused s res new bad), inv)
    ]
  where
    begin_add-refused :
        (s : System) (res : AddResult) (new : List Region)
        → res ≢ AddResult.add_ok
        → begin_add s (res, new) ≡ s
    begin_add-refused s AddResult.add_ok new bad = absurd (bad refl)
    begin_add-refused s AddResult.add_bad_size new bad = refl
    begin_add-refused s AddResult.add_wraps new bad = refl
    begin_add-refused s AddResult.add_overlap new bad = refl
    begin_add-refused s AddResult.add_full new bad = refl
    begin_add-refused s AddResult.add_nomem new bad = refl

-- A state that differs in the place of the writer only.
abbrev pub at_writer : System → WriterAt → System
at_writer s w = record s { writer = w }

pub at_writer-Inv :
    (s : System) (w : WriterAt)
    → Inv s
    → Carries s (at_writer s w)
    → WriterOk s w
    → Inv (at_writer s w)
at_writer-Inv s w inv keep ok = record {
  published = inv.published;
  unused = inv.unused;
  readers_ok = carry s (at_writer s w) inv keep;
  writer_ok = writer_same w ok;
}
  where
    writer_same : (v : WriterAt) → WriterOk s v → WriterOk (at_writer s w) v
    writer_same idle ok = ok
    writer_same (publishing old new) ok = ok
    writer_same (waiting old i) ok = ok
    writer_same (spinning old i seen) ok = ok

-- The new table becomes current: a reader inside holds what is now the old one.
pub publish-Inv :
    (s : System) (old new : ℕ)
    → Inv s
    → s.writer ≡ publishing old new
    → WriterOk s (publishing old new)
    → Inv (record s { current = new; writer = waiting old 0 })
unfolding Carries
publish-Inv s old new inv e (now, ne, live) = record {
  published = live;
  unused = inv.unused;
  readers_ok = carry s (record s { current = new; writer = waiting old 0 }) inv keep;
  writer_ok = (λ q. ne (sym q), omega arith);
}
  where
    keep :
        (id seq t : ℕ)
        → id < max_readers
        → seq ≡ (s.readers id).seq
        → Holds s id seq t
        → Holds (record s { current = new; writer = waiting old 0 }) id seq t
    keep id seq t lt same (odd, live, inl held) = (odd, live, inr (held ∙ sym now, omega arith))
    keep id seq t lt same (odd, live, inr pending) =
        absurd (subst (λ w. Pending w id seq t) e pending)

-- No reader holds the old table any more.
pub free-Inv :
    (s : System) (old : ℕ)
    → Inv s
    → s.writer ≡ waiting old max_readers
    → WriterOk s (waiting old max_readers)
    → Inv (record s { heap = update s.heap old none; writer = idle })
unfolding Carries
free-Inv s old inv e (ne, le) = record {
  published = IsLive-free s.heap old s.current ne inv.published;
  unused = λ a above. freed_unused a (inv.unused a above);
  readers_ok = carry s (record s { heap = update s.heap old none; writer = idle }) inv keep;
  writer_ok = tt;
}
  where
    freed_unused : (a : ℕ) → s.heap a ≡ none → update s.heap old none a ≡ none
    freed_unused a gone = ground arith

    keep :
        (id seq t : ℕ)
        → id < max_readers
        → seq ≡ (s.readers id).seq
        → Holds s id seq t
        → Holds (record s { heap = update s.heap old none; writer = idle }) id seq t
    keep id seq t lt same (odd, live, inl held) =
        (odd, IsLive-free s.heap old t (λ q. ne (q ∙ held)) live, inl held)
    keep id seq t lt same (odd, live, inr pending) =
        let (held, above) = subst (λ w. Pending w id seq t) e pending in absurd (omega arith)
