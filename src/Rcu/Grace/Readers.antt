-- ===== src/Rcu/Grace/Readers.antt =====
-- A step of a reader.
use systems_drills.Base.{ℕ, ◌%◌, ◌<◌, ◌≡◌, inl, refl, subst, Option, some, List, map, arith}
use systems_drills.Base.Bits.{word, add64}
use systems_drills.Base.Update.{update_all}
use systems_drills.RegionTable.{translate}
use systems_drills.Rcu.{Region, lookup}
use systems_drills.Rcu.Lookup.{as_region, lookup-eq-translate}
use systems_drills.Rcu.Grace.{
  ReaderAt, Reader, System, max_readers, with_reader, read_step, outside, entered, inside, looked,
}
use systems_drills.Rcu.Grace.Invariant.{ReaderOk, Inv}

with_reader-Inv :
    (s : System) (id : ℕ) (r : Reader) → Inv s → ReaderOk s id r.seq r.at → Inv (with_reader s id r)
with_reader-Inv s id r inv ok = record {
  published = inv.published;
  unused = inv.unused;
  readers_ok =
      update_all max_readers (λ q (z : Reader). ReaderOk s q z.seq z.at) s.readers id r ok
        (λ q lt ne. inv.readers_ok q lt);
  writer_ok = inv.writer_ok;
}

abbrev Steps : System → ℕ → ℕ → Type 0
Steps s id gpa = (s' : System) × (read_step s id gpa ≡ some s') × Inv s'

read_step-outside :
    (s : System) (id gpa : ℕ)
    → (s.readers id).at ≡ outside
    → read_step s id gpa
      ≡ some (with_reader s id (record { seq = add64 (s.readers id).seq 1; at = entered }))
unfolding read_step
read_step-outside s id gpa e = rw (e, read_step)

read_step-entered :
    (s : System) (id gpa : ℕ)
    → (s.readers id).at ≡ entered
    → read_step s id gpa
      ≡ some (with_reader s id (record { seq = (s.readers id).seq; at = inside s.current }))
unfolding read_step
read_step-entered s id gpa e = rw (e, read_step)

read_step-inside :
    (s : System) (id gpa t : ℕ) (table : List Region) (found : Option ℕ)
    → (s.readers id).at ≡ inside t
    → s.heap t ≡ some table
    → lookup table gpa ≡ some found
    → read_step s id gpa
      ≡ some (with_reader s id (record { seq = (s.readers id).seq; at = looked t }))
unfolding read_step
read_step-inside s id gpa t table found e f g = rw (e, read_step, f, g)

read_step-looked :
    (s : System) (id gpa t : ℕ)
    → (s.readers id).at ≡ looked t
    → read_step s id gpa
      ≡ some (with_reader s id (record { seq = add64 (s.readers id).seq 1; at = outside }))
unfolding read_step
read_step-looked s id gpa t e = rw (e, read_step)

odd_next : (n : ℕ) → n % 2 ≡ 0 → add64 n 1 % 2 ≡ 1
odd_next n e = omega arith

even_next : (n : ℕ) → n % 2 ≡ 1 → add64 n 1 % 2 ≡ 0
even_next n e = omega arith

pub read_step-Inv :
    (s : System) (id gpa : ℕ) → Inv s → id < max_readers → gpa < word → Steps s id gpa
read_step-Inv s id gpa inv lt h = go (s.readers id).at refl
  where
    ok : (at : ReaderAt) → (s.readers id).at ≡ at → ReaderOk s id (s.readers id).seq at
    ok at e = subst (ReaderOk s id (s.readers id).seq) e (inv.readers_ok id lt)

    go : (at : ReaderAt) → (s.readers id).at ≡ at → Steps s id gpa
    go outside e = (
      _,
      read_step-outside s id gpa e,
      with_reader-Inv s id _ inv (odd_next (s.readers id).seq (ok outside e)),
    )
    go entered e = (
      _,
      read_step-entered s id gpa e,
      with_reader-Inv s id _ inv (ok entered e, inv.published, inl refl),
    )
    go (inside t) e =
        let holds = ok (inside t) e in
        let (table, at, sorted, short) = holds.1 in
        (
          _,
          read_step-inside s id gpa t table (translate (map as_region table) gpa) e at
              (lookup-eq-translate table gpa sorted h),
          with_reader-Inv s id (record { seq = (s.readers id).seq; at = looked t }) inv holds,
        )
    go (looked t) e = (
      _,
      read_step-looked s id gpa t e,
      with_reader-Inv s id _ inv (even_next (s.readers id).seq (ok (looked t) e).0),
    )
