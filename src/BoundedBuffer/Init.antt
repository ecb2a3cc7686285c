-- ===== src/BoundedBuffer/Init.antt =====
-- `bq_init`: the queue that it sets up, and what a failure leaves behind.
use native.Mathlib.Nat.{mod-eq_of_lt}
use systems_drills.Base.{
  sym, subst, ap, ℕ, ◌+◌, ◌-◌, ◌*◌, ◌∷◌, ◌/◌, ◌^◌, ◌<◌, ◌≡◌, ◌≢◌, ◌⊎◌, inl, inr, refl, ◌∙◌, Bool,
  true, false, Option, none, some, List, [], arith, ==_ne, length, ℕ_discrete,
}
use systems_drills.Base.Bits.{word, mul64}
use systems_drills.BoundedBuffer.{Bq, Store, bq_init, bq_destroy, sizeof_int}
use systems_drills.BoundedBuffer.Refine.{IsValid, contents}

-- What malloc documents: a block that it returns has the size asked for.
abbrev pub Sized : (ℕ → Option (List ℕ)) → Type 0
Sized malloc = (n : ℕ) (b : List ℕ) → malloc n ≡ some b → length b ≡ n / 4

-- No block, and no pthread object initialised.
pub record Dead (q : Bq) : Type 0 where
  pub no_buf : q.buf ≡ []
  pub no_mutex : q.mutex ≡ false
  pub no_not_empty : q.cond_not_empty ≡ false
  pub no_not_full : q.cond_not_full ≡ false

-- An empty queue of the capacity, with its three pthread objects.
pub record Ready (q : Bq) (cap : ℕ) : Type 0 where
  pub valid : IsValid q
  pub empty : contents q ≡ []
  pub capacity : q.cap ≡ cap
  pub mutex : q.mutex ≡ true
  pub not_empty : q.cond_not_empty ≡ true
  pub not_full : q.cond_not_full ≡ true

-- Nothing stands in the way: a capacity, a block for its cells, and the three initialisations.
abbrev pub Served : (ℕ → Option (List ℕ)) → Bool → Bool → Bool → ℕ → Type 0
Served malloc mutex_ok not_empty_ok not_full_ok cap =
    (cap ≢ 0)
    × ((block : List ℕ) × (malloc (4 * cap) ≡ some block))
    × (mutex_ok ≡ true)
    × (not_empty_ok ≡ true)
    × (not_full_ok ≡ true)

-- A queue that is set up, with one block more, which `bq_destroy` frees; or nothing at all.
abbrev pub Outcome : Bool × Store → ℕ → ℕ → Type 0 → Type 0
Outcome r cap blocks served =
    (r.0 ≡ true)
      × served
      × Ready r.1.q cap
      × (r.1.blocks ≡ blocks + 1)
      × Dead (bq_destroy r.1).q
      × ((bq_destroy r.1).blocks ≡ blocks)
    ⊎ (r.0 ≡ false) × (¬ served) × Dead r.1.q × (r.1.blocks ≡ blocks)

bq_init-zero :
    (malloc : ℕ → Option (List ℕ)) (a b c : Bool) (s : Store) (cap : ℕ)
    → cap ≡ 0
    → bq_init malloc a b c s cap ≡ (false, s)
unfolding bq_init
bq_init-zero malloc a b c s cap e = rw e

-- The queue at the point where the block has been got.
abbrev with_block : Bq → ℕ → List ℕ → Bq
with_block q cap block = record q { head = 0; tail = 0; count = 0; cap = cap; buf = block }

bq_init-null :
    (malloc : ℕ → Option (List ℕ)) (a b c : Bool) (s : Store) (cap : ℕ)
    → cap ≢ 0
    → malloc (mul64 cap sizeof_int) ≡ none
    → bq_init malloc a b c s cap ≡ (false, record s { q = with_block s.q cap [] })
unfolding bq_init
bq_init-null malloc a b c s cap nz e = rw (==_ne cap 0 nz, e)

-- From there to the end, for a block that is not NULL.
abbrev finish : Bool → Bool → Bool → Bq → ℕ → Bool × Store
finish true true true q blocks = (
  true,
  record {
    q = record q { mutex = true; cond_not_empty = true; cond_not_full = true };
    blocks = blocks + 1;
  },
)
finish true true false q blocks = (
  false,
  record {
    q = record q { mutex = false; cond_not_empty = false; buf = [] };
    blocks = blocks + 1 - 1;
  },
)
finish true false c q blocks =
    (false, record { q = record q { mutex = false; buf = [] }; blocks = blocks + 1 - 1 })
finish false b c q blocks = (false, record { q = record q { buf = [] }; blocks = blocks + 1 - 1 })

bq_init-block :
    (malloc : ℕ → Option (List ℕ)) (a b c : Bool) (s : Store) (cap x : ℕ) (xs : List ℕ)
    → cap ≢ 0
    → malloc (mul64 cap sizeof_int) ≡ some (x ∷ xs)
    → bq_init malloc a b c s cap ≡ finish a b c (with_block s.q cap (x ∷ xs)) s.blocks
unfolding bq_init
bq_init-block malloc true true true s cap x xs nz e = rw (==_ne cap 0 nz, e)
bq_init-block malloc true true false s cap x xs nz e = rw (==_ne cap 0 nz, e)
bq_init-block malloc true false c s cap x xs nz e = rw (==_ne cap 0 nz, e)
bq_init-block malloc false b c s cap x xs nz e = rw (==_ne cap 0 nz, e)

empty_block-Valid :
    (q : Bq) (cap : ℕ) (block : List ℕ)
    → cap ≢ 0
    → cap < word
    → length block ≡ cap
    → IsValid (with_block q cap block)
empty_block-Valid q cap block nz fits size = record {
  size = size;
  room = omega arith;
  tail_in = omega (arith, nz);
  head_slot = sym (mod-eq_of_lt (omega (arith, nz)));
  fits = fits;
}

made-Ready :
    (q : Bq) (cap : ℕ) (block : List ℕ)
    → IsValid (with_block q cap block)
    → Ready
        (record (with_block q cap block) {
          mutex = true;
          cond_not_empty = true;
          cond_not_full = true;
        })
        cap
made-Ready q cap block v = record {
  valid = record {
    size = v.size;
    room = v.room;
    tail_in = v.tail_in;
    head_slot = v.head_slot;
    fits = v.fits;
  };
  empty = refl;
  capacity = refl;
  mutex = refl;
  not_empty = refl;
  not_full = refl;
}

one_back : (n : ℕ) → n + 1 - 1 ≡ n
one_back n = omega arith

finish-Outcome :
    (malloc : ℕ → Option (List ℕ)) (a b c : Bool) (q : Bq) (cap blocks x : ℕ) (xs : List ℕ)
    → cap ≢ 0
    → malloc (4 * cap) ≡ some (x ∷ xs)
    → Dead q
    → IsValid (with_block q cap (x ∷ xs))
    → Outcome (finish a b c (with_block q cap (x ∷ xs)) blocks) cap blocks (Served malloc a b c cap)
unfolding bq_destroy
finish-Outcome malloc true true true q cap blocks x xs nz e d v = inl (
  refl,
  (nz, (x ∷ xs, e), refl, refl, refl),
  made-Ready q cap (x ∷ xs) v,
  refl,
  record { no_buf = refl; no_mutex = refl; no_not_empty = refl; no_not_full = refl },
  one_back blocks,
)
finish-Outcome malloc true true false q cap blocks x xs nz e d v = inr (
  refl,
  λ (_, _, _, _, e). cc e,
  record { no_buf = refl; no_mutex = refl; no_not_empty = refl; no_not_full = d.no_not_full },
  one_back blocks,
)
finish-Outcome malloc true false c q cap blocks x xs nz e d v = inr (
  refl,
  λ (_, _, _, e, _). cc e,
  record {
    no_buf = refl;
    no_mutex = refl;
    no_not_empty = d.no_not_empty;
    no_not_full = d.no_not_full;
  },
  one_back blocks,
)
finish-Outcome malloc false b c q cap blocks x xs nz e d v = inr (
  refl,
  λ (_, _, e, _, _). cc e,
  record {
    no_buf = refl;
    no_mutex = d.no_mutex;
    no_not_empty = d.no_not_empty;
    no_not_full = d.no_not_full;
  },
  one_back blocks,
)

-- For a queue with no block and no initialised object, fewer than 2 ^ 62 cells, and an allocator
-- whose blocks have the size asked for. `bq_init` returns true exactly when the capacity is not
-- 0, malloc gives a block of 4 bytes a cell, and the three initialisations succeed. Then the
-- queue is valid and empty, has the capacity, its mutex and both condition variables are
-- initialised, one block more is allocated, and `bq_destroy` undoes it: the block is freed and
-- no object stays initialised. If it returns false, whichever step failed, nothing stays behind:
-- as many blocks are allocated as before, `buf` is NULL, and no object is initialised.
pub bq_init_lem :
    (malloc : ℕ → Option (List ℕ)) (mutex_ok not_empty_ok not_full_ok : Bool) (s : Store) (cap : ℕ)
    → Sized malloc
    → cap < 2 ^ 62
    → Dead s.q
    → Outcome
        (bq_init malloc mutex_ok not_empty_ok not_full_ok s cap)
        cap
        s.blocks
        (Served malloc mutex_ok not_empty_ok not_full_ok cap)
bq_init_lem malloc a b c s cap sized small d = elim (ℕ_discrete cap 0) [
  | yes z ↦
      subst (λ r. Outcome r cap s.blocks (Served malloc a b c cap))
        (sym (bq_init-zero malloc a b c s cap z)) (inr (refl, λ w. w.0 z, d, refl))
  | no nz ↦ go (malloc (mul64 cap sizeof_int)) refl nz
]
  where
    bytes : mul64 cap sizeof_int ≡ 4 * cap
    bytes = omega arith

    go :
        (o : Option (List ℕ))
        → malloc (mul64 cap sizeof_int) ≡ o
        → cap ≢ 0
        → Outcome (bq_init malloc a b c s cap) cap s.blocks (Served malloc a b c cap)
    go none e nz =
        subst (λ r. Outcome r cap s.blocks (Served malloc a b c cap))
          (sym (bq_init-null malloc a b c s cap nz e))
          (inr (
            refl,
            λ w. cc (w.1.1, ap malloc bytes, e),
            record {
              no_buf = refl;
              no_mutex = d.no_mutex;
              no_not_empty = d.no_not_empty;
              no_not_full = d.no_not_full;
            },
            refl,
          ))
    go (some []) e nz = absurd (omega (arith, nz, sized (mul64 cap sizeof_int) [] e, bytes))
    go (some (x ∷ xs)) e nz =
        subst (λ r. Outcome r cap s.blocks (Served malloc a b c cap))
          (sym (bq_init-block malloc a b c s cap x xs nz e))
          (finish-Outcome malloc a b c s.q cap s.blocks x xs nz (ap malloc (sym bytes) ∙ e) d (
            empty_block-Valid s.q cap (x ∷ xs) nz (omega arith)
              (sized (mul64 cap sizeof_int) (x ∷ xs) e ∙ omega arith)))
