-- ===== src/Rcu/Grace/Wait.antt =====
-- A step of the writer in `wait_for_readers`.
use systems_drills.Base.{
  ℕ, ◌+◌, ◌%◌, ◌<◌, ◌≡◌, ◌≢◌, inl, inr, refl, subst, sym, ap, ◌∙◌, Bool, none, some, arith, ==_iff,
  ==_ne, ℕ_discrete,
}
use systems_drills.Base.Update.{update}
use systems_drills.Rcu.{Region}
use systems_drills.Rcu.Add.{IsRegion}
use systems_drills.Rcu.Grace.{
  WriterAt, System, max_readers, write_from, write_step, idle, publishing, waiting, spinning,
}
use systems_drills.Rcu.Grace.Invariant.{Pending, WriterOk, Inv}
use systems_drills.Rcu.Grace.Writer.{
  StepsFrom, Carries, idle-Steps, at_writer, at_writer-Inv, publish-Inv, free-Inv,
}

module _ (s : System) (memory : Bool) (rgn : Region) where
  waiting-done :
      (old i : ℕ)
      → i ≡ max_readers
      → write_from (waiting old i) s memory rgn
        ≡ some (record s { heap = update s.heap old none; writer = idle })
  unfolding write_from
  waiting-done old i e = rw ((==_iff i max_readers).1 e)

  waiting-odd :
      (old i : ℕ)
      → i ≢ max_readers
      → (s.readers i).seq % 2 ≡ 1
      → write_from (waiting old i) s memory rgn
        ≡ some (at_writer s (spinning old i (s.readers i).seq))
  unfolding write_from
  waiting-odd old i ne odd = rw (==_ne i max_readers ne, (==_iff ((s.readers i).seq % 2) 1).1 odd)

  waiting-even :
      (old i : ℕ)
      → i ≢ max_readers
      → (s.readers i).seq % 2 ≢ 1
      → write_from (waiting old i) s memory rgn ≡ some (at_writer s (waiting old (i + 1)))
  unfolding write_from
  waiting-even old i ne even = rw (==_ne i max_readers ne, ==_ne ((s.readers i).seq % 2) 1 even)

  spinning-same :
      (old i seen : ℕ)
      → (s.readers i).seq ≡ seen
      → write_from (spinning old i seen) s memory rgn ≡ some s
  unfolding write_from
  spinning-same old i seen e = rw ((==_iff (s.readers i).seq seen).1 e)

  spinning-left :
      (old i seen : ℕ)
      → (s.readers i).seq ≢ seen
      → write_from (spinning old i seen) s memory rgn ≡ some (at_writer s (waiting old (i + 1)))
  unfolding write_from
  spinning-left old i seen ne = rw (==_ne (s.readers i).seq seen ne)

-- What a reader may hold moves on with the place of the writer.
moves :
    (s : System) (w v : WriterAt)
    → s.writer ≡ w
    → ((id t : ℕ)
        → id < max_readers
        → (s.readers id).seq % 2 ≡ 1
        → Pending w id (s.readers id).seq t
        → Pending v id (s.readers id).seq t)
    → Carries s (at_writer s v)
unfolding Carries
moves s w v e next id seq t lt same (odd, live, inl now) = (odd, live, inl now)
moves s w v e next id seq t lt same (odd, live, inr pending) =
    let here = subst (λ q. Pending q id seq t) e pending in
    (
      odd,
      live,
      inr (
          subst (λ q. Pending v id q t) (sym same)
            (next id t lt (subst (λ q. q % 2 ≡ 1) same odd)
              (subst (λ q. Pending w id q t) same here))),
    )

waiting-Steps :
    (s : System) (memory : Bool) (rgn : Region) (old i : ℕ)
    → Inv s
    → s.writer ≡ waiting old i
    → WriterOk s (waiting old i)
    → StepsFrom (waiting old i) s memory rgn
waiting-Steps s memory rgn old i inv e ok = elim (ℕ_discrete i max_readers) [
  | yes done ↦ (
    _,
    waiting-done s memory rgn old i done,
    free-Inv s old inv (e ∙ ap (waiting old) done) (ok.0, omega arith),
  )
  | no more ↦ elim (ℕ_discrete ((s.readers i).seq % 2) 1) [
    | yes odd ↦ (
      _,
      waiting-odd s memory rgn old i more odd,
      at_writer-Inv s (spinning old i (s.readers i).seq) inv
          (moves s (waiting old i) (spinning old i (s.readers i).seq) e spins)
          (ok.0, omega (arith, ok.1, more)),
    )
    | no even ↦ (
      _,
      waiting-even s memory rgn old i more even,
      at_writer-Inv s (waiting old (i + 1)) inv
          (moves s (waiting old i) (waiting old (i + 1)) e (passes even))
          (ok.0, omega (arith, ok.1, more)),
    )
  ]
]
  where
    spins :
        (id t : ℕ)
        → id < max_readers
        → (s.readers id).seq % 2 ≡ 1
        → Pending (waiting old i) id (s.readers id).seq t
        → Pending (spinning old i (s.readers i).seq) id (s.readers id).seq t
    spins id t lt odd (held, le) = elim (ℕ_discrete i id) [
      | yes same ↦ (held, inr (same, ap (λ q. (s.readers q).seq) (sym same)))
      | no ne ↦ (held, inl (omega (arith, ne)))
    ]

    passes :
        (s.readers i).seq % 2 ≢ 1
        → (id t : ℕ) → id < max_readers
        → (s.readers id).seq % 2 ≡ 1
        → Pending (waiting old i) id (s.readers id).seq t
        → Pending (waiting old (i + 1)) id (s.readers id).seq t
    passes even id t lt odd (held, le) = elim (ℕ_discrete i id) [
      | yes same ↦ absurd (even (subst (λ q. (s.readers q).seq % 2 ≡ 1) (sym same) odd))
      | no ne ↦ (held, omega (arith, ne))
    ]

spinning-Steps :
    (s : System) (memory : Bool) (rgn : Region) (old i seen : ℕ)
    → Inv s
    → s.writer ≡ spinning old i seen
    → WriterOk s (spinning old i seen)
    → StepsFrom (spinning old i seen) s memory rgn
spinning-Steps s memory rgn old i seen inv e ok = elim (ℕ_discrete (s.readers i).seq seen) [
  | yes same ↦ (s, spinning-same s memory rgn old i seen same, inv)
  | no left ↦ (
    _,
    spinning-left s memory rgn old i seen left,
    at_writer-Inv s (waiting old (i + 1)) inv
        (moves s (spinning old i seen) (waiting old (i + 1)) e (passes left))
        (ok.0, omega (arith, ok.1)),
  )
]
  where
    passes :
        (s.readers i).seq ≢ seen
        → (id t : ℕ) → id < max_readers
        → (s.readers id).seq % 2 ≡ 1
        → Pending (spinning old i seen) id (s.readers id).seq t
        → Pending (waiting old (i + 1)) id (s.readers id).seq t
    passes left id t lt odd (held, inl above) = (held, omega arith)
    passes left id t lt odd (held, inr (same, as_seen)) =
        absurd (left (ap (λ q. (s.readers q).seq) same ∙ as_seen))

publishing-now :
    (s : System) (memory : Bool) (rgn : Region) (old new : ℕ)
    → write_from (publishing old new) s memory rgn
      ≡ some (record s { current = new; writer = waiting old 0 })
unfolding write_from
publishing-now s memory rgn old new = refl

from-Steps :
    (s : System) (memory : Bool) (rgn : Region) (w : WriterAt)
    → Inv s
    → IsRegion rgn
    → s.writer ≡ w
    → WriterOk s w
    → StepsFrom w s memory rgn
from-Steps s memory rgn idle inv words e ok = idle-Steps s memory rgn inv words e
from-Steps s memory rgn (publishing old new) inv words e ok =
    (_, publishing-now s memory rgn old new, publish-Inv s old new inv e ok)
from-Steps s memory rgn (waiting old i) inv words e ok = waiting-Steps s memory rgn old i inv e ok
from-Steps s memory rgn (spinning old i seen) inv words e ok =
    spinning-Steps s memory rgn old i seen inv e ok

pub write_step-Inv :
    (s : System) (memory : Bool) (rgn : Region)
    → Inv s
    → IsRegion rgn
    → (s' : System) × (write_step s memory rgn ≡ some s') × Inv s'
unfolding write_step
write_step-Inv s memory rgn inv words =
    from-Steps s memory rgn s.writer inv words refl inv.writer_ok
