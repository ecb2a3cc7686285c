-- ===== src/Messages/Tests.antt =====
-- `main` of mock4.c, case by case, and the theorems on its first buffers.
use systems_drills.Base.{ℕ, ◌≡◌, refl, Option, none, some, List, [], ◌∷◌, ◌++◌, arith, length}
use systems_drills.Messages.{Handler, handle_msg, read_message, parse_loop, parse_msgs}
use systems_drills.Messages.Wire.{Message, AllMessages, encode_all, deliver}
use systems_drills.Messages.Parse.{
  parse_msgs_total, parse_msgs-encode_all, parse_msgs-Bad, Bad, unknown,
}

abbrev idle : Handler
idle = record { last_type = 0; last_len = 0; calls = 0; last_payload = 0 }

abbrev one_message : List ℕ
one_message = 0x01 ∷ 0x00 ∷ 0x03 ∷ 0x00 ∷ b'a' ∷ b'b' ∷ b'c' ∷ []

abbrev back_to_back : List ℕ
back_to_back = one_message ++ (0x02 ∷ 0x00 ∷ 0x00 ∷ 0x00 ∷ [])

abbrev past_the_end : List ℕ
past_the_end = 0x01 ∷ 0x00 ∷ 0x05 ∷ 0x00 ∷ 0xAA ∷ []

abbrev header_cut_off : List ℕ
header_cut_off = back_to_back ++ (0x01 ∷ 0x00 ∷ [])

abbrev unknown_type : List ℕ
unknown_type = 0x07 ∷ 0x00 ∷ 0x00 ∷ 0x00 ∷ []

abbrev after : ℕ → ℕ → ℕ → ℕ → Handler
after type len calls payload = record {
  last_type = type;
  last_len = len;
  calls = calls;
  last_payload = payload;
}

main_cases :
    (parse_msgs one_message 7 idle ≡ some (some 1, after 1 3 1 4))
    × (parse_msgs back_to_back 11 idle ≡ some (some 2, after 2 0 2 11))
    × (parse_msgs past_the_end 5 idle ≡ some (none, idle))
    × (parse_msgs header_cut_off 13 idle ≡ some (none, after 2 0 2 11))
    × (parse_msgs unknown_type 4 idle ≡ some (none, idle))
    × (parse_msgs unknown_type 0 idle ≡ some (some 0, idle))
unfolding parse_msgs parse_loop read_message handle_msg
main_cases = (refl, refl, refl, refl, refl, refl)

abbrev abc : Message
abc = record { type = 1; payload = b'a' ∷ b'b' ∷ b'c' ∷ [] }

abbrev empty : Message
empty = record { type = 2; payload = [] }

parse_msgs_total_example : (r : Option ℕ × Handler) × (parse_msgs (0xff ∷ 0 ∷ []) 2 idle ≡ some r)
parse_msgs_total_example = parse_msgs_total (0xff ∷ 0 ∷ []) 2 idle (omega arith) (omega arith)

abbrev both : List Message
both = abc ∷ empty ∷ []

both-AllMessages : AllMessages both
both-AllMessages = ((refl, omega arith), ((refl, omega arith), tt))

parse_msgs-encode_all_example :
    parse_msgs (encode_all both) (length (encode_all both)) idle
    ≡ some (some 2, deliver idle 0 both)
parse_msgs-encode_all_example = parse_msgs-encode_all both idle both-AllMessages

unknown_type-Bad : Bad unknown_type
unknown_type-Bad = unknown 0x07 0 0 0 [] refl

parse_msgs-Bad_example :
    parse_msgs (encode_all both ++ unknown_type) 15 idle ≡ some (none, deliver idle 0 both)
parse_msgs-Bad_example = parse_msgs-Bad both unknown_type idle both-AllMessages unknown_type-Bad
