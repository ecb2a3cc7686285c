-- ===== src/Cas.antt =====
-- concurrency/04-cas/cas.c: an addition and a maximum made of compare-and-swap, and the workers that
-- run them. A turn of a thread is one access of the counter.
-- The weak compare-and-swap may fail by itself: each turn says whether it does. The numbers are
-- natural numbers: a long is taken to hold the totals.
pub mod Counts
pub mod Maximum
pub mod Totals
mod Tests
use systems_drills.Base.{
  ℕ, ◌+◌, ◌*◌, Bool, true, false, ◌&&◌, not, List, [], ◌∷◌, ltb, ◌==◌, if◌then◌else◌,
}
use systems_drills.Base.Update.{update}

-- Before the load of a call; in its loop, with `p_snapshot`; with the loop of the worker over.
pub data At : Type 0 where
  loading finished : At
  trying : ℕ → At

-- `i` and `retries` of a worker.
pub record Thread : Type 0 where
  pub i : ℕ
  pub at : At
  pub retries : ℕ

pub record System : Type 0 where
  pub counter : ℕ
  pub iter : ℕ
  pub threads : ℕ → Thread

-- The test of the `for` of a worker.
abbrev pub next_round : ℕ → ℕ → At
next_round iter i = if ltb i iter then At.loading else At.finished

abbrev pub set_thread : System → ℕ → Thread → System
set_thread s k t = record s { threads = update s.threads k t }

-- A call of thread `k` ends with `counter` in the counter.
abbrev pub end_call : System → ℕ → ℕ → System
end_call s counter k =
    let t = s.threads k in
    record {
      counter = counter;
      iter = s.iter;
      threads =
          update s.threads k
            (record { i = t.i + 1; at = next_round s.iter (t.i + 1); retries = t.retries });
    }

-- The load, and a compare-and-swap that fails and refreshes the snapshot.
abbrev pub take_snapshot : System → ℕ → System
take_snapshot s k =
    set_thread s k
      (record { i = (s.threads k).i; at = At.trying s.counter; retries = (s.threads k).retries })

abbrev pub refresh : System → ℕ → System
refresh s k =
    set_thread s k (record {
      i = (s.threads k).i;
      at = At.trying s.counter;
      retries = (s.threads k).retries + 1;
    })

-- The next access of a worker in `my_add`, which adds 1.
unfoldable pub add_from : At → System → ℕ → Bool → System
add_from loading s k spurious = take_snapshot s k
add_from (trying snapshot) s k spurious =
    if not spurious && (s.counter == snapshot) then end_call s (snapshot + 1) k else refresh s k
add_from finished s k spurious = s

-- The value that thread `k` of `num_thread` offers in its round `i`.
abbrev pub offer : ℕ → ℕ → ℕ → ℕ
offer num_thread i k = i * num_thread + k

-- The next access of a worker in `my_max`; the call ends when the value is no more the larger.
unfoldable pub max_from : ℕ → At → System → ℕ → Bool → System
max_from num_thread loading s k spurious = take_snapshot s k
max_from num_thread (trying snapshot) s k spurious =
    let v = offer num_thread (s.threads k).i k in
    if ltb snapshot v
    then (if not spurious && (s.counter == snapshot) then end_call s v k else refresh s k)
    else end_call s s.counter k
max_from num_thread finished s k spurious = s

-- The threads that run, in turn, with the compare-and-swaps that fail by themselves.
unfoldable pub run_add : System → List (ℕ × Bool) → System
run_add s [] = s
run_add s ((k, spurious) ∷ turns) = run_add (add_from (s.threads k).at s k spurious) turns

unfoldable pub run_max : ℕ → System → List (ℕ × Bool) → System
run_max num_thread s [] = s
run_max num_thread s ((k, spurious) ∷ turns) =
    run_max num_thread (max_from num_thread (s.threads k).at s k spurious) turns

-- The workers as `run_threads` starts them, with the counter at 0.
unfoldable pub start : ℕ → System
start iter = record {
  counter = 0;
  iter = iter;
  threads = λ k. record { i = 0; at = next_round iter 0; retries = 0 };
}
