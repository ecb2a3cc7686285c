-- ===== src/Queue.antt =====
-- A first-in first-out queue of at most `cap` items, oldest first: what the rings promise.
pub mod Client
use systems_drills.Base.{
  ℕ, Bool, true, false, Option, none, some, List, [], ◌∷◌, ◌++◌, ◌==◌, if◌then◌else◌, length, ◌≡◌,
  ◌≢◌, arith,
}

module _ {ℓ} {A : Type ℓ} where
  unfoldable pub push : ℕ → List A → A → Bool × List A
  push cap q x = if length q == cap then (false, q) else (true, q ++ (x ∷ []))

  unfoldable pub pop : List A → Option A × List A
  pop [] = (none, [])
  pop (x ∷ q) = (some x, q)

module _ {ℓ} {A : Type ℓ} where
  pub push_full : (cap : ℕ) (q : List A) (x : A) → length q ≡ cap → push cap q x ≡ (false, q)
  unfolding push
  push_full cap q x e = ground arith

  pub push_room :
      (cap : ℕ) (q : List A) (x : A) → length q ≢ cap → push cap q x ≡ (true, q ++ (x ∷ []))
  unfolding push
  push_room cap q x ne = ground arith

  pub pop_empty : (q : List A) → q ≡ [] → pop q ≡ (none, [])
  unfolding pop
  pop_empty q e = rw e

  pub pop-cons : (q : List A) (x : A) (r : List A) → q ≡ x ∷ r → pop q ≡ (some x, r)
  unfolding pop
  pop-cons q x r e = rw e
