-- ===== src/Ring/Pow2.antt =====
-- `next_pow2` of rb.c, from the binary digits of its argument.
use systems_drills.Base.{
  ℕ, zero, suc, ◌+◌, ◌-◌, ◌*◌, ◌/◌, ◌%◌, ◌^◌, ◌≤◌, ◌<◌, bit_or, ◌≡◌, refl, ap, ◌≢◌, ◌↔◌, ◌⊎◌, arith,
  dec_lt,
}
use native.Mathlib.Nat.{add_comm, mod-eq_of_lt, div-le_self, pow-suc}
use systems_drills.Base.Bits.{word}
use systems_drills.Base.Bits.Digit.{
  digit, digit-bit_or, div-two_pow-add, Fills, Fills→pow, bit_or-lt, two_pow_mono, two_pow-pos,
}
use systems_drills.Ring.{smear_loop, next_pow2}

-- Each digit of `x` is one exactly if `m` has a one among the `s` digits from that place up.
abbrev Smeared : ℕ → ℕ → ℕ → Type 0
Smeared s m x = (i : ℕ) → (digit x i ≡ 1) ↔ (m / 2 ^ i % 2 ^ s ≢ 0)

-- What one round of the loop makes of a digit, given how a window splits in two.
Smeared-round :
    (s t m x : ℕ)
    → ((y : ℕ) → (y % 2 ^ t ≢ 0) ↔ (y % 2 ^ s ≢ 0) ⊎ (y / 2 ^ s % 2 ^ s ≢ 0))
    → Smeared s m x
    → Smeared t m (bit_or x (x / 2 ^ s))
Smeared-round s t m x split h i = ground (
  arith,
  digit-bit_or i x (x / 2 ^ s),
  h i,
  h (i + s),
  split (m / 2 ^ i),
  div-two_pow-add m i s,
  div-two_pow-add x s i,
  ap (λ (k : ℕ). x / 2 ^ k) (add_comm i s),
)

Smeared-one : (m : ℕ) → Smeared 1 m m
Smeared-one m i = omega arith

-- After the rounds for 1, 2, 4, 8, 16 and 32 a window has 64 digits.
smear_loop-Smeared : (m : ℕ) → Smeared 64 m (smear_loop 7 1 m)
unfolding smear_loop
smear_loop-Smeared m =
    Smeared-round 32 64 m _ (λ y. omega arith)
      (Smeared-round 16 32 m _ (λ y. omega arith)
        (Smeared-round 8 16 m _ (λ y. omega arith)
          (Smeared-round 4 8 m _ (λ y. omega arith)
            (Smeared-round 2 4 m _ (λ y. omega arith)
              (Smeared-round 1 2 m m (λ y. omega arith) (Smeared-one m))))))

smear_loop-lt : (k f s m : ℕ) → m < 2 ^ k → smear_loop f s m < 2 ^ k
unfolding smear_loop
smear_loop-lt k zero s m h = h
smear_loop-lt k (suc f) s m h = ground (
  arith,
  div-le_self m (2 ^ s),
  bit_or-lt k m (m / 2 ^ s),
  smear_loop-lt k f (s * 2) (bit_or m (m / 2 ^ s)),
)

-- More rounds than the seven change nothing: the seventh test ends the loop.
smear_loop_stops : (f m : ℕ) → smear_loop (suc f) 64 m ≡ m
unfolding smear_loop
smear_loop_stops f m = refl

smear_loop-Fills : (m : ℕ) → m < word → Fills m (smear_loop 7 1 m)
smear_loop-Fills m h i = ground (
  arith,
  smear_loop-Smeared m i,
  mod-eq_of_lt {n = m / 2 ^ i} {m = 2 ^ 64},
  div-le_self m (2 ^ i),
)

-- The loop ends one below a power of two, the least above its argument.
smear_loop-pow :
    (m : ℕ)
    → m < word
    → let x = smear_loop 7 1 m in
      (k : ℕ) × (k ≤ 64) × (x + 1 ≡ 2 ^ k) × (m ≤ x) × ((m ≡ 0) × (x ≡ 0) ⊎ (x < 2 * m))
smear_loop-pow m h =
    Fills→pow 64 m (smear_loop 7 1 m) h (smear_loop-lt 64 7 1 m h) (smear_loop-Fills m h)

pow_le_of_lt : (k j : ℕ) → 2 ^ k < 2 ^ suc j → 2 ^ k ≤ 2 ^ j
pow_le_of_lt k j h = elim (dec_lt j k) [
  | yes above ↦ absurd (omega (arith, two_pow_mono (suc j) k above))
  | no below ↦ two_pow_mono k j (omega arith)
]

exponent_le : (k : ℕ) → 2 ^ k < 2 ^ 64 → k ≤ 63
exponent_le k h = elim (dec_lt k 64) [
  | yes below ↦ omega arith
  | no above ↦ absurd (omega (arith, two_pow_mono 64 k (omega arith)))
]

exponent_eq : (k : ℕ) → k ≤ 64 → 2 ^ 63 < 2 ^ k → k ≡ 64
exponent_eq k le h = elim (dec_lt k 64) [
  | yes below ↦ absurd (omega (arith, two_pow_mono k 63 (omega arith)))
  | no above ↦ omega arith
]

pow_of_one : (c : ℕ) → c ≤ 1 → next_pow2 c ≡ 2 ^ 0
unfolding next_pow2
pow_of_one c h = ground arith

pow_of_more : (c : ℕ) → 1 < c → next_pow2 c ≡ (smear_loop 7 1 (c - 1) + 1) % word
unfolding next_pow2
pow_of_more c h = ground arith

-- For an argument up to 2 ^ 63 the result is the least power of two that is not below it.
pub next_pow2_least :
    (c : ℕ)
    → c ≤ 2 ^ 63
    → (k : ℕ) × (k ≤ 63)
      × (next_pow2 c ≡ 2 ^ k)
      × (c ≤ 2 ^ k)
      × ((j : ℕ) → c ≤ 2 ^ j → 2 ^ k ≤ 2 ^ j)
next_pow2_least c h = elim (dec_lt 1 c) [
  | no small ↦ (0, omega arith, pow_of_one c (omega arith), omega arith, λ j q. two_pow-pos j)
  | yes big ↦
      let (k, kf, e, le, shape) = smear_loop-pow (c - 1) (omega arith) in
      let x = smear_loop 7 1 (c - 1) in
      let small : x < 2 * (c - 1) = ground (arith, shape) in
      (
        k,
        exponent_le k (omega arith),
        omega (arith, pow_of_more c big),
        omega arith,
        λ j q. pow_le_of_lt k j (omega (arith, pow-suc 2 j)),
      )
]

-- Above 2 ^ 63 no power of two fits a word, and the result is 0.
pub next_pow2_too_big : (c : ℕ) → 2 ^ 63 < c → c < 2 ^ 64 → next_pow2 c ≡ 0
next_pow2_too_big c h k =
    let (i, kf, e, le, shape) = smear_loop-pow (c - 1) (omega arith) in
    let top : i ≡ 64 = exponent_eq i kf (omega arith) in
    let last : 2 ^ i ≡ 2 ^ 64 = ap (λ (t : ℕ). 2 ^ t) top in
    omega (arith, pow_of_more c (omega arith))
