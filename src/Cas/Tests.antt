-- ===== src/Cas/Tests.antt =====
-- Two workers of cas.c with one round each, and the theorem for them.
use systems_drills.Base.{ℕ, zero, suc, ◌+◌, ◌*◌, ◌≡◌, refl, Bool, true, false, List, [], ◌∷◌, arith}
use systems_drills.Cas.{finished, add_from, max_from, run_add, run_max, start}
use systems_drills.Cas.Totals.{AllFinished, cas_totals}

-- Both load, thread 0 swaps, thread 1 fails, then fails by itself, then swaps.
abbrev schedule : List (ℕ × Bool)
schedule = (0, false) ∷ (1, false) ∷ (0, false) ∷ (1, false) ∷ (1, true) ∷ (1, false) ∷ []

add_run :
    let s = run_add (start 1) schedule in
    (s.counter ≡ 2)
    × ((s.threads 0).at ≡ finished)
    × ((s.threads 1).at ≡ finished)
    × ((s.threads 1).retries ≡ 2)
unfolding run_add add_from start
add_run = (refl, refl, refl, refl)

-- Thread 0 offers 0, which is not above the counter.
max_run :
    let s = run_max 2 (start 1) schedule in
    (s.counter ≡ 1) × ((s.threads 0).at ≡ finished) × ((s.threads 1).retries ≡ 0)
unfolding run_max max_from start
max_run = (refl, refl, refl)

adds_over : AllFinished 2 (run_add (start 1) schedule)
unfolding run_add add_from start
adds_over zero lt = refl
adds_over (suc zero) lt = refl
adds_over (suc (suc k)) lt = absurd (omega arith)

maxs_over : AllFinished 2 (run_max 2 (start 1) schedule)
unfolding run_max max_from start
maxs_over zero lt = refl
maxs_over (suc zero) lt = refl
maxs_over (suc (suc k)) lt = absurd (omega arith)

cas_totals_example :
    ((run_add (start 1) schedule).counter ≡ 2 * 1)
    × ((run_max 2 (start 1) schedule).counter + 1 ≡ 1 * 2)
cas_totals_example =
    cas_totals 2 1 schedule schedule (omega arith) (omega arith) (omega arith) (omega arith)
      adds_over maxs_over
