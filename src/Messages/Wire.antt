-- ===== src/Messages/Wire.antt =====
-- The wire format: messages, their encoding, and what the handler sees of them.
use systems_drills.Base.{ℕ, ◌+◌, ◌/◌, ◌%◌, ◌^◌, ◌<◌, ◌≡◌, true, List, [], ◌∷◌, ◌++◌, length}
use systems_drills.Messages.{Handler, handle_msg, known}

pub record Message : Type 0 where
  pub type : ℕ
  pub payload : List ℕ

abbrev pub IsMessage : Message → Type 0
IsMessage m = (known m.type ≡ true) × (length m.payload < 2 ^ 16)

-- Type and length, two bytes each with the low byte first, and the payload.
abbrev pub encode : Message → List ℕ
encode m =
    m.type % 2 ^ 8
    ∷ m.type / 2 ^ 8
    ∷ length m.payload % 2 ^ 8
    ∷ length m.payload / 2 ^ 8
    ∷ m.payload

abbrev pub encode_all : List Message → List ℕ
encode_all [] = []
encode_all (m ∷ ms) = encode m ++ encode_all ms

abbrev pub AllMessages : List Message → Type 0
AllMessages [] = Unit
AllMessages (m ∷ ms) = IsMessage m × AllMessages ms

-- The handler after the messages, the first of which starts at index `i`.
abbrev pub deliver : Handler → ℕ → List Message → Handler
deliver h i [] = h
deliver h i (m ∷ ms) =
    deliver (handle_msg h m.type (i + 4) (length m.payload)) (i + length m.payload + 4) ms
