-- ===== src/Messages.antt =====
-- Interview/mock4.c: a parser of type-length-value messages that calls a handler for each.
-- A pointer into the buffer is its index. `size_t` sums do not wrap: a size is below 2 ^ 63.
pub mod Wire
pub mod Parse
mod Tests
use systems_drills.Base.{
  ℕ, zero, suc, ◌+◌, ◌*◌, ◌%◌, ◌^◌, Bool, true, false, ◌||◌, not, Option, none, some, List, ltb,
  ◌==◌, if◌then◌else◌, get_elem?, ◌>>=◌,
}

-- The globals that `handle_msg` writes.
pub record Handler : Type 0 where
  pub last_type : ℕ
  pub last_len : ℕ
  pub calls : ℕ
  pub last_payload : ℕ

abbrev pub u16 : ℕ → ℕ
u16 n = n % 2 ^ 16

unfoldable pub handle_msg : Handler → ℕ → ℕ → ℕ → Handler
handle_msg h type payload len = record {
  last_type = type;
  last_len = len;
  calls = u16 (h.calls + 1);
  last_payload = payload;
}

abbrev pub known : ℕ → Bool
known type = type == 1 || type == 2 || type == 3

-- The checks of one round at index `i`, up to the call of the handler: the type and the length of
-- the message, or the return of -1 as `some none`. The outer `none` is a read outside the buffer.
unfoldable pub read_message : List ℕ → ℕ → ℕ → Option (Option (ℕ × ℕ))
read_message buf size i = if ltb size (i + 4) then some none else do
  b1 ← get_elem? buf (i + 1)
  b0 ← get_elem? buf i
  let type = u16 (b1 * 2 ^ 8 + b0)
  if not (known type) then some none else do
    b3 ← get_elem? buf (i + 3)
    b2 ← get_elem? buf (i + 2)
    let len = u16 (b3 * 2 ^ 8 + b2)
    if ltb size (i + len + 4) then some none else some (some (type, len))

-- The loop at index `i`. The number is the return value, `none` for -1; the outer `none` is a read
-- outside the buffer, or the fuel at its end.
unfoldable pub parse_loop : ℕ → List ℕ → ℕ → ℕ → ℕ → Handler → Option (Option ℕ × Handler)
parse_loop zero buf size i counter h = none
parse_loop (suc fuel) buf size i counter h =
    if ltb i size
    then elim (read_message buf size i) [
      | none ↦ none
      | some none ↦ some (none, h)
      | some (some (type, len)) ↦
          parse_loop fuel buf size (i + len + 4) (u16 (counter + 1)) (handle_msg h type (i + 4) len)
    ]
    else some (some counter, h)

-- Every round moves on by four bytes at least, so the size is enough fuel.
unfoldable pub parse_msgs : List ℕ → ℕ → Handler → Option (Option ℕ × Handler)
parse_msgs buf size h = parse_loop (suc size) buf size 0 0 h
