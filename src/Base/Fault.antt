-- ===== src/Base/Fault.antt =====
-- Sequencing of steps that may fault: `none` is an access out of range, which C leaves undefined.
use mathlib.Core.Option.{Option, none, some}

infixl 5 ◌>>=◌
abbrev pub ◌>>=◌ {ℓ κ} : {A : Type ℓ} {B : Type κ} → Option A → (A → Option B) → Option B
none >>= k = none
some a >>= k = k a
