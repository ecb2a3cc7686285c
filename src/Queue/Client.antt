-- ===== src/Queue/Client.antt =====
-- Calls on a bounded queue of values and what a client sees of them, for any implementation.
use systems_drills.Base.{ℕ, ◌≡◌, refl, Bool, Option, some, List, [], ◌∷◌, ◌>>=◌}
use systems_drills.Queue.{push, pop}

pub data Op : Type 0 where
  put : ℕ → Op
  get : Op

-- What a call returns: whether it stored its value, or the value that it took.
pub data Reply : Type 0 where
  stored : Bool → Reply
  taken : Option ℕ → Reply

unfoldable pub run_spec : ℕ → List ℕ → List Op → List Reply
run_spec cap q [] = []
run_spec cap q (Op.put x ∷ ops) = let (b, r) = push cap q x in stored b ∷ run_spec cap r ops
run_spec cap q (Op.get ∷ ops) = let (o, r) = pop q in taken o ∷ run_spec cap r ops

module _ {State : Type 0} where
  -- The calls on a state in order; `none` if one of them faults.
  unfoldable pub run :
      (State → ℕ → Option (Bool × State))
      → (State → Option (Option ℕ × State))
      → State
      → List Op
      → Option (List Reply)
  run write read s [] = some []
  run write read s (Op.put x ∷ ops) = do
    (b, s') ← write s x
    rest ← run write read s' ops
    some (stored b ∷ rest)
  run write read s (Op.get ∷ ops) = do
    (o, s') ← read s
    rest ← run write read s' ops
    some (taken o ∷ rest)

  -- A call that does not fault, answers as the queue operation does, and leaves a valid state that
  -- holds the new queue.
  pub record Simulates {R : Type 0} (Valid : State → Type 0) (contents : State → List ℕ)
      (result : Option (R × State)) (spec : R × List ℕ) : Type 0 where
    pub state : State
    pub returns : result ≡ some (spec.0, state)
    pub valid : Valid state
    pub holds : contents state ≡ spec.1

-- What an implementation promises.
pub record BoundedQueue (State : Type 0) : Type 1 where
  pub write : State → ℕ → Option (Bool × State)
  pub read : State → Option (Option ℕ × State)
  pub Valid : State → Type 0
  pub contents : State → List ℕ
  pub cap : ℕ
  pub write-Simulates :
      (s : State) (x : ℕ) → Valid s → Simulates Valid contents (write s x) (push cap (contents s) x)
  pub read-Simulates : (s : State) → Valid s → Simulates Valid contents (read s) (pop (contents s))

-- No sequence of calls tells a valid state from the queue that it holds.
pub run_refines :
    {State : Type 0} (impl : BoundedQueue State) (ops : List Op) {s : State}
    → impl.Valid s
    → run impl.write impl.read s ops ≡ some (run_spec impl.cap (impl.contents s) ops)
unfolding run run_spec
run_refines impl [] v = refl
run_refines impl (Op.put x ∷ ops) {s} v =
    let c = impl.write-Simulates s x v in rw (c.returns, run_refines impl ops c.valid, c.holds)
run_refines impl (Op.get ∷ ops) {s} v =
    let c = impl.read-Simulates s v in rw (c.returns, run_refines impl ops c.valid, c.holds)
