-- ===== src/Cas/Totals.antt =====
-- What the counter is when all the workers have finished.
use native.Mathlib.Nat.{suc-mul, mul-le-mul_right}
use systems_drills.Base.{
  ℕ, suc, ◌+◌, ◌-◌, ◌*◌, ◌≤◌, ◌<◌, ◌≡◌, inl, inr, refl, sym, ap, ◌∙◌, subst, Bool, ◌&&◌, not, List,
  [], ◌∷◌, arith, ltb, ◌==◌, Bool-cases,
}
use systems_drills.Base.Update.{sum_const}
use systems_drills.Cas.{
  At, System, loading, finished, trying, offer, add_from, max_from, run_add, run_max, start,
}
use systems_drills.Cas.Counts.{RoundAt, AllBelow, AddInv, run_add-AddInv, start-AddInv}
use systems_drills.Cas.Maximum.{Offered, MaxInv, run_max-MaxInv, start-MaxInv}

-- The number of rounds is not changed.
add_from-iter :
    (at : At) (s : System) (k : ℕ) (spurious : Bool) → (add_from at s k spurious).iter ≡ s.iter
unfolding add_from
add_from-iter loading s k spurious = refl
add_from-iter finished s k spurious = refl
add_from-iter (trying snapshot) s k spurious =
    elim (Bool-cases (not spurious && (s.counter == snapshot))) [
      | inl e ↦ rw e refl
      | inr e ↦ rw e refl
    ]

run_add-iter : (s : System) (turns : List (ℕ × Bool)) → (run_add s turns).iter ≡ s.iter
unfolding run_add
run_add-iter s [] = refl
run_add-iter s ((k, spurious) ∷ turns) =
    run_add-iter (add_from (s.threads k).at s k spurious) turns
    ∙ add_from-iter (s.threads k).at s k spurious

max_from-iter :
    (n : ℕ) (at : At) (s : System) (k : ℕ) (spurious : Bool)
    → (max_from n at s k spurious).iter ≡ s.iter
unfolding max_from
max_from-iter n loading s k spurious = refl
max_from-iter n finished s k spurious = refl
max_from-iter n (trying snapshot) s k spurious =
    elim (Bool-cases (ltb snapshot (offer n (s.threads k).i k))) [
      | inr e ↦ rw e refl
      | inl e ↦ elim (Bool-cases (not spurious && (s.counter == snapshot))) [
        | inl q ↦ rw (e, q) refl
        | inr q ↦ rw (e, q) refl
      ]
    ]

run_max-iter : (n : ℕ) (s : System) (turns : List (ℕ × Bool)) → (run_max n s turns).iter ≡ s.iter
unfolding run_max
run_max-iter n s [] = refl
run_max-iter n s ((k, spurious) ∷ turns) =
    run_max-iter n (max_from n (s.threads k).at s k spurious) turns
    ∙ max_from-iter n (s.threads k).at s k spurious

abbrev pub AllFinished : ℕ → System → Type 0
AllFinished n s = (k : ℕ) → k < n → (s.threads k).at ≡ finished

add_total : (n : ℕ) (s : System) → AddInv n s → AllFinished n s → s.counter ≡ n * s.iter
add_total n s inv all =
    inv.total
    ∙ sum_const n s.iter (λ k. (s.threads k).i)
        (λ k lt. subst (RoundAt s.iter (s.threads k).i) (all k lt) (inv.rounds k lt))

-- An offer is below the number of all the offers.
offer_lt : (n iter j k : ℕ) → j < iter → k < n → offer n j k < iter * n
offer_lt n iter j k j_lt k_lt = omega (arith, mul-le-mul_right n j_lt, suc-mul j n)

max_total :
    (n : ℕ) (s : System)
    → 1 ≤ n
    → 1 ≤ s.iter
    → MaxInv n s
    → AllFinished n s
    → s.counter + 1 ≡ s.iter * n
max_total n s some_thread some_round inv all = exactly inv.offered
  where
    j : ℕ
    j = s.iter - 1

    product : s.iter * n ≡ j * n + n
    product = ap (λ i. i * n) {x = s.iter} {y = suc j} (omega arith) ∙ suc-mul j n

    -- The last thread's last offer.
    lower : offer n j (n - 1) ≤ s.counter
    lower = inv.covers (n - 1) (omega arith) j (
        omega (
          arith,
          subst (RoundAt s.iter (s.threads (n - 1)).i) (all (n - 1) (omega arith))
              (inv.rounds (n - 1) (omega arith)),
        ))

    exactly : Offered n s.iter s.counter → s.counter + 1 ≡ s.iter * n
    exactly (inl z) = omega (arith, z, lower, product)
    exactly (inr (i, k, i_lt, k_lt, e)) =
        omega (arith, e, lower, product, offer_lt n s.iter i k i_lt k_lt)

-- However the workers of `my_add` are interleaved, and whichever weak compare-and-swaps fail by
-- themselves, when all of them have finished the counter is the number of threads times the number
-- of rounds; and so with those of `my_max`, for one thread or more and one round or more, the
-- counter is the largest value offered, one less than that product.
pub cas_totals :
    (n iter : ℕ) (adds maxs : List (ℕ × Bool))
    → 1 ≤ n
    → 1 ≤ iter
    → AllBelow n adds
    → AllBelow n maxs
    → AllFinished n (run_add (start iter) adds)
    → AllFinished n (run_max n (start iter) maxs)
    → ((run_add (start iter) adds).counter ≡ n * iter)
      × ((run_max n (start iter) maxs).counter + 1 ≡ iter * n)
unfolding start
cas_totals n iter adds maxs some_thread some_round adds_below maxs_below adds_over maxs_over = (
  add_total n (run_add (start iter) adds)
        (run_add-AddInv n (start iter) adds adds_below (start-AddInv n iter)) adds_over
      ∙ ap (λ i. n * i) (run_add-iter (start iter) adds),
  max_total n (run_max n (start iter) maxs) some_thread
        (subst (λ i. 1 ≤ i) (sym (run_max-iter n (start iter) maxs)) some_round)
        (run_max-MaxInv n (start iter) maxs maxs_below (start-MaxInv n iter)) maxs_over
      ∙ ap (λ i. i * n) (run_max-iter n (start iter) maxs),
)
