-- ===== src/LockRing/Calls.antt =====
-- The calls on a ring that holds consecutive numbers.
use systems_drills.Base.{
  ℕ, zero, suc, ◌+◌, ◌^◌, ◌≤◌, ◌≡◌, ◌≢◌, refl, sym, ap, ◌∙◌, subst, Bool, true, false, Option, none,
  some, List, [], ◌∷◌, ◌++◌, arith, length, inl, inr, Option-cases, ==_iff, ==_ne, ◌>>=◌, bit_and,
  store?, get_elem?, some_inj,
}
use systems_drills.Queue.{push, pop, push_room, pop-cons}
use systems_drills.Queue.Client.{Simulates}
use systems_drills.Ring.{Ring, ring_write, ring_read}
use systems_drills.Ring.Valid.{IsValid, used}
use systems_drills.Ring.Refine.{
  contents, length-contents, ring_write-Simulates, ring_read-Simulates,
}
use systems_drills.LockRing.{
  LockRing, lock, full, empty, put, take_out, ring_try_write, ring_try_read,
}

some_ne {ℓ} : {A : Type ℓ} {a : A} → some a ≢ none
some_ne e = cc

abbrev write_reply : Option Ring → Option (Bool × Ring)
write_reply r = r >>= (λ ring'. some (true, ring'))

abbrev read_reply : Option (ℕ × Ring) → Option (Option ℕ × Ring)
read_reply r = r >>= (λ (x, ring'). some (some x, ring'))

-- With room, and with a value there, the lines here do what the calls of rb.c do.
write_put : (ring : Ring) (x : ℕ) → full ring ≡ false → ring_write ring x ≡ write_reply (put ring x)
unfolding ring_write put
write_put ring x room = elim (Option-cases (store? ring.buf (bit_and ring.head ring.mask) x)) [
  | inl e ↦ rw (room, e) refl
  | inr (buf, e) ↦ rw (room, e) refl
]

read_take : (ring : Ring) → empty ring ≡ false → ring_read ring ≡ read_reply (take_out ring)
unfolding ring_read take_out
read_take ring more = elim (Option-cases (get_elem? ring.buf (bit_and ring.tail ring.mask))) [
  | inl e ↦ rw (more, e) refl
  | inr (x, e) ↦ rw (more, e) refl
]

-- `n` consecutive numbers from `a` on.
abbrev pub from : ℕ → ℕ → List ℕ
from a zero = []
from a (suc n) = a ∷ from (suc a) n

pub length-from : (a n : ℕ) → length (from a n) ≡ n
length-from a zero = refl
length-from a (suc n) = ap suc (length-from (suc a) n)

from-snoc : (a n : ℕ) → from a n ++ ((a + n) ∷ []) ≡ from a (suc n)
from-snoc a zero = ap (λ x. x ∷ []) (omega arith)
from-snoc a (suc n) =
    ap (λ x. a ∷ (from (suc a) n ++ (x ∷ []))) (omega arith) ∙ ap (λ q. a ∷ q) (from-snoc (suc a) n)

-- A valid ring of 2 ^ k cells with `n` consecutive numbers from `a` on.
pub record Holds (k a n : ℕ) (ring : Ring) : Type 0 where
  pub valid : IsValid k ring
  pub values : contents k ring ≡ from a n

module _ {k a n : ℕ} {ring : Ring} (h : Holds k a n ring) where
  pub Holds-used : used ring ≡ n
  Holds-used = sym (length-contents k ring) ∙ ap length h.values ∙ length-from a n

  pub Holds-le : n ≤ 2 ^ k
  Holds-le = omega (arith, Holds-used, h.valid.room)

  pub full-yes : n ≡ 2 ^ k → full ring ≡ true
  full-yes e = (==_iff (used ring) ring.capacity).1 (Holds-used ∙ e ∙ sym h.valid.power)

  pub full-no : n ≢ 2 ^ k → full ring ≡ false
  full-no ne = ==_ne (used ring) ring.capacity (λ e. ne (sym Holds-used ∙ e ∙ h.valid.power))

  pub empty-yes : n ≡ 0 → empty ring ≡ true
  empty-yes e =
      (==_iff ring.head ring.tail).1
        (omega (arith, Holds-used, e, h.valid.head_word, h.valid.tail_word))

  pub empty-no : n ≢ 0 → empty ring ≡ false
  empty-no ne =
      ==_ne ring.head ring.tail
        (λ e. ne (sym Holds-used ∙ omega (arith, e, h.valid.head_word, h.valid.tail_word)))

  pub put_lem :
      n ≢ 2 ^ k → (ring' : Ring) × (put ring (a + n) ≡ some ring') × Holds k a (suc n) ring'
  put_lem ne = elim (Option-cases (put ring (a + n))) [
    | inl e ↦
        absurd (some_ne (sym c.returns ∙ write_put ring (a + n) (full-no ne) ∙ ap write_reply e))
    | inr (ring', e) ↦
        let same : c.state ≡ ring' =
          ap (λ (z : Bool × Ring). z.1)
            (some_inj (sym c.returns ∙ write_put ring (a + n) (full-no ne) ∙ ap write_reply e)) in
        (
          ring',
          e,
          record {
            valid = subst (IsValid k) same c.valid;
            values =
                ap (contents k) (sym same)
                ∙ c.holds
                ∙ ap (λ (z : Bool × List ℕ). z.1) stored
                ∙ ap (λ q. q ++ ((a + n) ∷ [])) h.values
                ∙ from-snoc a n;
          },
        )
  ]
    where
      c :
          Simulates
            (IsValid k)
            (contents k)
            (ring_write ring (a + n))
            (push (2 ^ k) (contents k ring) (a + n))
      c = ring_write-Simulates (a + n) h.valid

      stored : push (2 ^ k) (contents k ring) (a + n) ≡ (true, contents k ring ++ ((a + n) ∷ []))
      stored =
          push_room (2 ^ k) (contents k ring) (a + n)
            (λ e. ne (sym (ap length h.values ∙ length-from a n) ∙ e))

module _ {k a n : ℕ} {ring : Ring} (h : Holds k a (suc n) ring) where
  pub take_out_lem : (ring' : Ring) × (take_out ring ≡ some (a, ring')) × Holds k (suc a) n ring'
  take_out_lem = elim (Option-cases (take_out ring)) [
    | inl e ↦ absurd (
        some_ne (
          sym c.returns
          ∙ read_take ring (empty-no h (λ e. absurd (omega arith)))
          ∙ ap read_reply e))
    | inr ((x, ring'), e) ↦
        let reply : (pop (contents k ring)).0 ≡ some x =
          ap (λ (z : Option ℕ × Ring). z.0)
            (some_inj (
              sym c.returns
              ∙ read_take ring (empty-no h (λ e. absurd (omega arith)))
              ∙ ap read_reply e)) in
        let same : c.state ≡ ring' =
          ap (λ (z : Option ℕ × Ring). z.1)
            (some_inj (
              sym c.returns
              ∙ read_take ring (empty-no h (λ e. absurd (omega arith)))
              ∙ ap read_reply e)) in
        let first : x ≡ a = some_inj (sym reply ∙ ap (λ (z : Option ℕ × List ℕ). z.0) popped) in
        (
          ring',
          e ∙ ap (λ v. some (v, ring')) first,
          record {
            valid = subst (IsValid k) same c.valid;
            values =
                ap (contents k) (sym same) ∙ c.holds ∙ ap (λ (z : Option ℕ × List ℕ). z.1) popped;
          },
        )
  ]
    where
      c : Simulates (IsValid k) (contents k) (ring_read ring) (pop (contents k ring))
      c = ring_read-Simulates h.valid

      popped : pop (contents k ring) ≡ (some a, from (suc a) n)
      popped = pop-cons (contents k ring) a (from (suc a) n) h.values

-- The non-blocking calls on an unlocked ring.
abbrev pub unlocked : Ring → LockRing
unlocked ring = record { ring = ring; locked = false }

module _ {k a n : ℕ} {ring : Ring} (h : Holds k a n ring) where
  pub ring_try_write-full :
      (x : ℕ) → n ≡ 2 ^ k → ring_try_write (unlocked ring) x ≡ some (false, unlocked ring)
  unfolding ring_try_write lock
  ring_try_write-full x e = rw (full-yes h e) refl

  pub ring_try_write-stores :
      n ≢ 2 ^ k
      → (ring' : Ring) × (ring_try_write (unlocked ring) (a + n) ≡ some (true, unlocked ring'))
        × Holds k a (suc n) ring'
  unfolding ring_try_write lock
  ring_try_write-stores ne =
      let (ring', e, h') = put_lem h ne in (ring', rw (full-no h ne, e) refl, h')

  pub ring_try_read-empty : n ≡ 0 → ring_try_read (unlocked ring) ≡ some (none, unlocked ring)
  unfolding ring_try_read lock
  ring_try_read-empty e = rw (empty-yes h e) refl

pub ring_try_read-takes :
    {k a n : ℕ} {ring : Ring}
    → Holds k a (suc n) ring
    → (ring' : Ring) × (ring_try_read (unlocked ring) ≡ some (some a, unlocked ring'))
      × Holds k (suc a) n ring'
unfolding ring_try_read lock
ring_try_read-takes h =
    let (ring', e, h') = take_out_lem h in
    (ring', rw (empty-no h (λ e. absurd (omega arith)), e) refl, h')
