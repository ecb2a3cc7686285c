-- ===== src/Cas/Counts.antt =====
-- The rounds of the workers, and the invariant of `my_add`.
use native.Mathlib.Nat.{mul-zero}
use systems_drills.Base.{
  ℕ, ◌+◌, ◌<◌, ◌≡◌, inl, inr, refl, sym, ap, ◌∙◌, subst, Bool, true, false, ◌&&◌, not, List, [],
  ◌∷◌, arith, ltb, ltb→lt, ◌==◌, ==_iff, Bool-cases,
}
use systems_drills.Base.Update.{
  update, update_self, update_ne, update_all, sum, sum_eq, sum-step, sum_const,
}
use systems_drills.Cas.{
  At, Thread, System, loading, finished, trying, next_round, set_thread, add_from, run_add, start,
}

-- A thread that has finished has made all its rounds, another has some to make.
abbrev pub RoundAt : ℕ → ℕ → At → Type 0
RoundAt iter i finished = i ≡ iter
RoundAt iter i loading = i < iter
RoundAt iter i (trying snapshot) = i < iter

abbrev pub Rounds : ℕ → System → Type 0
Rounds n s = (k : ℕ) → k < n → RoundAt s.iter (s.threads k).i (s.threads k).at

-- Only threads that there are run.
abbrev pub AllBelow : ℕ → List (ℕ × Bool) → Type 0
AllBelow n [] = Unit
AllBelow n ((k, spurious) ∷ turns) = (k < n) × AllBelow n turns

pub RoundAt-next_round : (iter i : ℕ) → i < iter → RoundAt iter (i + 1) (next_round iter (i + 1))
RoundAt-next_round iter i lt = elim (Bool-cases (ltb (i + 1) iter)) [
  | inl more ↦ rw more (ltb→lt (i + 1) iter more)
  | inr done ↦ rw done (ground arith)
]

pub start-Rounds : (n iter : ℕ) → Rounds n (start iter)
unfolding start
start-Rounds n iter k lt = elim (Bool-cases (ltb 0 iter)) [
  | inl more ↦ rw more (ltb→lt 0 iter more)
  | inr done ↦ rw done (ground arith)
]

-- What a compare-and-swap of this program tests.
pub swaps_iff : (spurious : Bool) (c p : ℕ) → (not spurious && (c == p)) ≡ true → c ≡ p
swaps_iff true c p e = absurd (cc)
swaps_iff false c p e = (==_iff c p).0 e

module _ (n : ℕ) (s : System) (k : ℕ) (lt : k < n) (rounds : Rounds n s) where
  -- One thread replaced.
  pub set_thread-Rounds : (t : Thread) → RoundAt s.iter t.i t.at → Rounds n (set_thread s k t)
  set_thread-Rounds t ok =
      update_all n (λ q (z : Thread). RoundAt s.iter z.i z.at) s.threads k t ok
        (λ q below far. rounds q below)

  pub same_sum :
      (t : Thread)
      → t.i ≡ (s.threads k).i
      → sum n (λ q. (update s.threads k t q).i) ≡ sum n (λ q. (s.threads q).i)
  same_sum t same =
      sum_eq n (λ q. (update s.threads k t q).i) (λ q. (s.threads q).i)
        (update_all n (λ q (z : Thread). z.i ≡ (s.threads q).i) s.threads k t same
          (λ q below far. refl))

  pub next_sum :
      (t : Thread)
      → t.i ≡ (s.threads k).i + 1
      → sum n (λ q. (update s.threads k t q).i) ≡ sum n (λ q. (s.threads q).i) + 1
  next_sum t more =
      sum-step n k (λ q. (s.threads q).i) (λ q. (update s.threads k t q).i) lt
        (ap (λ (z : Thread). z.i) (update_self s.threads k t) ∙ more)
        (λ q below far. ap (λ (z : Thread). z.i) (update_ne s.threads k q t far))

-- The counter is the number of rounds made.
pub record AddInv (n : ℕ) (s : System) : Type 0 where
  pub rounds : Rounds n s
  pub total : s.counter ≡ sum n (λ k. (s.threads k).i)

module _ (n : ℕ) (s : System) (k : ℕ) (lt : k < n) (inv : AddInv n s) where
  same-AddInv :
      (t : Thread) → t.i ≡ (s.threads k).i → RoundAt s.iter t.i t.at → AddInv n (set_thread s k t)
  same-AddInv t same ok = record {
    rounds = set_thread-Rounds n s k lt inv.rounds t ok;
    total = inv.total ∙ sym (same_sum n s k lt inv.rounds t same);
  }

  add_from-AddInv :
      (at : At) (spurious : Bool) → (s.threads k).at ≡ at → AddInv n (add_from at s k spurious)
  unfolding add_from
  add_from-AddInv finished spurious e = inv
  add_from-AddInv loading spurious e =
      same-AddInv _ refl (subst (RoundAt s.iter (s.threads k).i) e (inv.rounds k lt))
  add_from-AddInv (trying snapshot) spurious e =
      elim (Bool-cases (not spurious && (s.counter == snapshot))) [
        | inr fails ↦ rw fails (same-AddInv _ refl going)
        | inl swaps ↦ rw swaps (record {
          rounds =
              set_thread-Rounds n s k lt inv.rounds _
                (RoundAt-next_round s.iter (s.threads k).i going);
          total = omega (
            arith,
            swaps_iff spurious s.counter snapshot swaps,
            inv.total,
            next_sum n s k lt inv.rounds
                (record {
                  i = (s.threads k).i + 1;
                  at = next_round s.iter ((s.threads k).i + 1);
                  retries = (s.threads k).retries;
                })
                refl,
          );
        })
      ]
    where
      going : (s.threads k).i < s.iter
      going = subst (RoundAt s.iter (s.threads k).i) e (inv.rounds k lt)

pub run_add-AddInv :
    (n : ℕ) (s : System) (turns : List (ℕ × Bool))
    → AllBelow n turns
    → AddInv n s
    → AddInv n (run_add s turns)
unfolding run_add
run_add-AddInv n s [] below inv = inv
run_add-AddInv n s ((k, spurious) ∷ turns) (lt, below) inv =
    run_add-AddInv n (add_from (s.threads k).at s k spurious) turns below
      (add_from-AddInv n s k lt inv (s.threads k).at spurious refl)

pub start-AddInv : (n iter : ℕ) → AddInv n (start iter)
unfolding start
start-AddInv n iter = record {
  rounds = start-Rounds n iter;
  total = sym (sum_const n 0 (λ _. 0) (λ q lt. refl) ∙ mul-zero n);
}
