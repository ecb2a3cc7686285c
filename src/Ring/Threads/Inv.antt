-- ===== src/Ring/Threads/Inv.antt =====
-- The invariant of the two threads, and that each access keeps it.
use native.Mathlib.Nat.{mod-lt, le_refl}
use systems_drills.Base.{
  ℕ, ◌+◌, ◌-◌, ◌%◌, ◌^◌, ◌≤◌, ◌<◌, ◌≡◌, ◌≢◌, refl, bit_and, Option, none, some, arith, length,
  get_or, set, length-set, get_or-set_self, get_or-set_ne, store?-eq-set, get_elem?-eq-get_or,
  ℕ_discrete, ap, ◌∙◌, ==_iff, ==_ne, store?, get_elem?,
}
use systems_drills.Base.Bits.{word, add64, sub64, bit_and_mask}
use systems_drills.Base.Bits.Digit.{two_pow-pos, two_pow_mono}
use systems_drills.Ring.{Ring}
use systems_drills.Ring.Window.{slot-ne}
use systems_drills.Ring.Threads.{Producer, Consumer, System, producer_step, consumer_step}

-- The ring while the producer has published `H` values and the consumer has released `T`: value
-- number `x` is `x`, and the values in between are in their slots.
pub record Holds (k : ℕ) (ring : Ring) : Type 0 where
  pub power : ring.capacity ≡ 2 ^ k
  pub masked : ring.mask ≡ 2 ^ k - 1
  pub cells : length ring.buf ≡ 2 ^ k
  pub order : ring.tail ≤ ring.head
  pub room : ring.head ≤ ring.tail + 2 ^ k
  pub slots : (x : ℕ) → ring.tail ≤ x → x < ring.head → get_or ring.buf (x % 2 ^ k) 0 ≡ x

-- What the producer's locals say about the ring.
abbrev pub Publishes : ℕ → ℕ → Ring → Producer → Type 0
Publishes n k ring (Producer.turn i) = (ring.head ≡ i) × (i ≤ n)
Publishes n k ring (Producer.got_head i head) = (ring.head ≡ i) × (head ≡ i) × (i < n)
Publishes n k ring (Producer.got_tail i head tail) =
    (ring.head ≡ i) × (head ≡ i) × (i < n) × (tail ≤ ring.tail) × (i ≤ tail + 2 ^ k)
Publishes n k ring (Producer.filled i head) =
    (ring.head ≡ i)
    × (head ≡ i)
    × (i < n)
    × (i < ring.tail + 2 ^ k)
    × (get_or ring.buf (i % 2 ^ k) 0 ≡ i)

abbrev pub Releases : ℕ → Ring → Consumer → Type 0
Releases n ring (Consumer.turn i) = (ring.tail ≡ i) × (i ≤ n)
Releases n ring (Consumer.got_tail i tail) = (ring.tail ≡ i) × (tail ≡ i) × (i < n)
Releases n ring (Consumer.got_head i tail head) =
    (ring.tail ≡ i) × (tail ≡ i) × (i < n) × (i ≤ head) × (head ≤ ring.head)
Releases n ring (Consumer.taken i tail v) =
    (ring.tail ≡ i) × (tail ≡ i) × (i < n) × (i < ring.head) × (v ≡ i)
Releases n ring (Consumer.checking i v) = (ring.tail ≡ i + 1) × (i < n) × (v ≡ i)
Releases n ring Consumer.failed = ⊥

pub record Inv (n k : ℕ) (s : System) : Type 0 where
  pub few : n < word
  pub small : k ≤ 60
  pub holds : Holds k s.ring
  pub prod : Publishes n k s.ring s.prod
  pub cons : Releases n s.ring s.cons

-- The step does not fault and leads to a state with the invariant.
abbrev pub StepsInto {ℓ} : {P : Type ℓ} → Option (Ring × P) → (Ring → P → Type 0) → Type 0
StepsInto none Q = ⊥
StepsInto (some (ring, p)) Q = Q ring p

-- The consumer's facts survive a publication, and the producer's a release.
Releases-grow :
    (n : ℕ) (ring ring' : Ring) (c : Consumer)
    → ring'.tail ≡ ring.tail
    → ring.head ≤ ring'.head
    → Releases n ring c
    → Releases n ring' c
Releases-grow n ring ring' (Consumer.turn i) e le h = omega arith
Releases-grow n ring ring' (Consumer.got_tail i tail) e le h = omega arith
Releases-grow n ring ring' (Consumer.got_head i tail head) e le h = omega arith
Releases-grow n ring ring' (Consumer.taken i tail v) e le h = omega arith
Releases-grow n ring ring' (Consumer.checking i v) e le h = omega arith
Releases-grow n ring ring' Consumer.failed e le h = h

Publishes-grow :
    (n k : ℕ) (ring : Ring) (t : ℕ) (p : Producer)
    → ring.tail ≤ t
    → Publishes n k ring p
    → Publishes n k (record ring { tail = t }) p
Publishes-grow n k ring t (Producer.turn i) le h = omega arith
Publishes-grow n k ring t (Producer.got_head i head) le h = omega arith
Publishes-grow n k ring t (Producer.got_tail i head tail) le h = omega arith
Publishes-grow n k ring t (Producer.filled i head) le h = omega arith

-- Reduction of the slot of an index below the bound, as the code computes it.
pub slot_of : {k : ℕ} {ring : Ring} (i : ℕ) → Holds k ring → bit_and i ring.mask ≡ i % 2 ^ k
slot_of {k} i h = rw h.masked (bit_and_mask k i)

slot_in : {k : ℕ} {ring : Ring} (i : ℕ) → Holds k ring → i % 2 ^ k < length ring.buf
slot_in {k} i h = omega (arith, h.cells, mod-lt i {m = 2 ^ k} (two_pow-pos k))

-- Two indices less than a capacity apart have their own slots.
pub slot-distinct : (k x i : ℕ) → x < i → i < x + 2 ^ k → i % 2 ^ k ≢ x % 2 ^ k
slot-distinct k x i lt near e =
    slot-ne (2 ^ k) x (i - x - 1) (omega arith) (ap (λ (t : ℕ). t % 2 ^ k) (omega arith) ∙ e)

fill-Holds :
    {k : ℕ} {ring : Ring} (i : ℕ)
    → Holds k ring
    → ring.head ≡ i
    → i < ring.tail + 2 ^ k
    → Holds k (record ring { buf = set ring.buf (i % 2 ^ k) i })
fill-Holds {k} {ring} i h e near = record {
  power = h.power;
  masked = h.masked;
  cells = length-set ring.buf (i % 2 ^ k) i ∙ h.cells;
  order = h.order;
  room = h.room;
  slots = λ x le lt.
      get_or-set_ne ring.buf (i % 2 ^ k) (x % 2 ^ k) i 0
        (slot-distinct k x i (omega arith) (omega arith))
      ∙ h.slots x le lt;
}

publish-Holds :
    {k : ℕ} {ring : Ring} (i h' : ℕ)
    → Holds k ring
    → ring.head ≡ i
    → h' ≡ i + 1
    → i < ring.tail + 2 ^ k
    → get_or ring.buf (i % 2 ^ k) 0 ≡ i
    → Holds k (record ring { head = h' })
publish-Holds {k} {ring} i h' h e e' near v = record {
  power = h.power;
  masked = h.masked;
  cells = h.cells;
  order = omega (arith, h.order);
  room = omega arith;
  slots = λ x le lt. elim (ℕ_discrete x i) [ yes p ↦ rw p v | no ne ↦ h.slots x le (omega arith) ];
}

release-Holds :
    {k : ℕ} {ring : Ring} (t : ℕ)
    → Holds k ring
    → ring.tail < ring.head
    → t ≡ ring.tail + 1
    → Holds k (record ring { tail = t })
release-Holds {k} {ring} t h lt e = record {
  power = h.power;
  masked = h.masked;
  cells = h.cells;
  order = omega arith;
  room = omega (arith, h.room);
  slots = λ x le below. h.slots x (omega arith) below;
}

module _ {n k : ℕ} {ring : Ring} (few : n < word) (small : k ≤ 60) (h : Holds k ring) where
  abbrev Next : Consumer → Ring → Producer → Type 0
  Next c r p = Holds k r × Publishes n k r p × Releases n r c

  store_slot :
      (i head v : ℕ)
      → head ≡ i
      → store? ring.buf (bit_and head ring.mask) v ≡ some (set ring.buf (i % 2 ^ k) v)
  store_slot i head v e = rw (e, slot_of i h) (store?-eq-set ring.buf (i % 2 ^ k) v (slot_in i h))

  pub producer_step-Inv :
      (p : Producer) (c : Consumer)
      → Publishes n k ring p
      → Releases n ring c
      → StepsInto (producer_step n ring p) (Next c)
  unfolding producer_step
  producer_step-Inv (Producer.turn i) c hp hc = ground arith
  producer_step-Inv (Producer.got_head i head) c hp hc =
      (h, (hp.0, hp.1, hp.2, omega arith, omega (arith, h.room)), hc)
  producer_step-Inv (Producer.got_tail i head tail) c hp hc =
      elim (ℕ_discrete (sub64 head tail) ring.capacity) [
        | yes full ↦
            rw ((==_iff (sub64 head tail) ring.capacity).1 full) (h, (hp.0, omega arith), hc)
        | no free ↦
            rw (==_ne (sub64 head tail) ring.capacity free, store_slot i head i hp.1)
              (
                fill-Holds i h hp.0 (near free),
                (
                  hp.0,
                  hp.1,
                  hp.2,
                  near free,
                  get_or-set_self ring.buf (i % 2 ^ k) i 0 (slot_in i h),
                ),
                Releases-grow n ring (record ring { buf = set ring.buf (i % 2 ^ k) i }) c refl
                    (le_refl _) hc,
              )
      ]
    where
      near : sub64 head tail ≢ ring.capacity → i < ring.tail + 2 ^ k
      near free = omega (arith, h.power, h.room, h.order, two_pow_mono k 60 small)
  producer_step-Inv (Producer.filled i head) c hp hc = (
    publish-Holds i (add64 head 1) h hp.0 (omega arith) (omega arith) hp.4,
    (omega arith, omega arith),
    Releases-grow n ring (record ring { head = add64 head 1 }) c refl (omega arith) hc,
  )

  abbrev Next' : Producer → Ring → Consumer → Type 0
  Next' p r c = Holds k r × Publishes n k r p × Releases n r c

  pub consumer_step-Inv :
      (c : Consumer) (p : Producer)
      → Publishes n k ring p
      → Releases n ring c
      → StepsInto (consumer_step n ring c) (Next' p)
  unfolding consumer_step
  consumer_step-Inv (Consumer.turn i) p hp hc = ground arith
  consumer_step-Inv (Consumer.got_tail i tail) p hp hc =
      (h, hp, (hc.0, hc.1, hc.2, omega (arith, h.order), omega arith))
  consumer_step-Inv (Consumer.got_head i tail head) p hp hc = elim (ℕ_discrete head tail) [
    | yes empty ↦ rw ((==_iff head tail).1 empty) (h, hp, (hc.0, omega arith))
    | no more ↦
        rw (==_ne head tail more, load_slot)
          (h, hp, (hc.0, hc.1, hc.2, omega arith, h.slots i (omega arith) (omega arith)))
  ]
    where
      load_slot : get_elem? ring.buf (bit_and tail ring.mask) ≡ some (get_or ring.buf (i % 2 ^ k) 0)
      load_slot = rw (hc.1, slot_of i h) (get_elem?-eq-get_or ring.buf (i % 2 ^ k) 0 (slot_in i h))
  consumer_step-Inv (Consumer.taken i tail v) p hp hc = (
    release-Holds (add64 tail 1) h (omega arith) (omega arith),
    Publishes-grow n k ring (add64 tail 1) p (omega arith) hp,
    (omega arith, hc.2, hc.4),
  )
  consumer_step-Inv (Consumer.checking i v) p hp hc =
      rw ((==_iff v i).1 hc.2) (h, hp, (hc.0, omega arith))
  consumer_step-Inv Consumer.failed p hp hc = absurd hc
