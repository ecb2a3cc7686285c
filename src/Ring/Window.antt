-- ===== src/Ring/Window.antt =====
-- Free-running indices: the slots from `tail` on, for indices that wrap at 64 bits over a buffer
-- of `2 ^ k` cells.
use native.Mathlib.Nat.{mod-eq_of_lt, mod-eq-sub-mod, add-zero, mod-add-mod, mod-lt}
use mathlib.Core.Path.{◌≡⟨◌⟩◌, ◌∎}
use systems_drills.Base.{
  ℕ, zero, suc, ◌+◌, ◌-◌, ◌%◌, ◌^◌, ◌≤◌, ◌<◌, ◌≡◌, refl, sym, ap, ap₂, ◌∙◌, ◌≢◌, List, [], ◌∷◌,
  ◌++◌, arith, dec_lt, length, get_or, set, get_or-set_self, get_or-set_ne,
}
use systems_drills.Base.Bits.{add64}
use systems_drills.Base.Bits.Digit.{wrap-mod}

module _ (buf : List ℕ) (k : ℕ) where
  -- The `n` values from index `t` on; the slot of an index is its remainder by the capacity.
  abbrev pub window : ℕ → ℕ → List ℕ
  window t zero = []
  window t (suc n) = get_or buf (t % 2 ^ k) 0 ∷ window (add64 t 1) n

  pub length-window : (t n : ℕ) → length (window t n) ≡ n
  length-window t zero = refl
  length-window t (suc n) = ap suc (length-window (add64 t 1) n)

  pub window_of_ne_zero :
      (t n : ℕ) → n ≢ 0 → window t n ≡ get_or buf (t % 2 ^ k) 0 ∷ window (add64 t 1) (n - 1)
  window_of_ne_zero t zero p = absurd (p refl)
  window_of_ne_zero t (suc n) p = ap (λ (m : ℕ). window t (suc m)) (omega arith)

-- Fewer steps than cells do not come back to the slot.
pub slot-ne : (c t d : ℕ) → suc d < c → (t + suc d) % c ≢ t % c
slot-ne c t d h e = elim (dec_lt (t % c + suc d) c) [
  | yes p ↦ omega (arith, mod-add-mod t c (suc d), mod-eq_of_lt p)
  | no p ↦ omega (
    arith,
    mod-add-mod t c (suc d),
    mod-lt t {m = c} (omega arith),
    mod-eq-sub-mod {n = t % c + suc d} {m = c} (omega arith),
    mod-eq_of_lt {n = t % c + suc d - c} {m = c} (omega (arith, mod-lt t {m = c} (omega arith))),
  )
]

slot_of_next : (k t n : ℕ) → k ≤ 64 → (add64 t 1 + n) % 2 ^ k ≡ (t + suc n) % 2 ^ k
slot_of_next k t n hk =
    (add64 t 1 + n) % 2 ^ k
    ≡⟨ sym (mod-add-mod (add64 t 1) (2 ^ k) n) ⟩ (add64 t 1 % 2 ^ k + n) % 2 ^ k
    ≡⟨ ap (λ (m : ℕ). (m + n) % 2 ^ k) (wrap-mod k (t + 1) hk) ⟩ ((t + 1) % 2 ^ k + n) % 2 ^ k
    ≡⟨ mod-add-mod (t + 1) (2 ^ k) n ⟩ (t + 1 + n) % 2 ^ k
    ≡⟨ ap (λ (m : ℕ). m % 2 ^ k) (omega arith) ⟩ (t + suc n) % 2 ^ k ∎

-- A write just past a window extends it by the value written.
pub window-set :
    (buf : List ℕ) (k x n t i : ℕ)
    → k ≤ 64
    → length buf ≡ 2 ^ k
    → n < 2 ^ k
    → i ≡ (t + n) % 2 ^ k
    → window (set buf i x) k t (suc n) ≡ window buf k t n ++ (x ∷ [])
window-set buf k x zero t i hk hl hn e =
    rw (e, add-zero t, get_or-set_self buf (t % 2 ^ k) x 0 (omega (arith, mod-lt t hn)))
window-set buf k x (suc n) t i hk hl hn e =
    ap₂ ◌∷◌ (get_or-set_ne buf i (t % 2 ^ k) x 0 (λ p. slot-ne (2 ^ k) t n hn (sym e ∙ p)))
      (window-set buf k x n (add64 t 1) i hk hl (omega arith) (e ∙ sym (slot_of_next k t n hk)))
