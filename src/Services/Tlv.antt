-- ===== src/Services/Tlv.antt =====
-- `_parse_der_length`, `_build_tlv`, `identify_command` and `segment_response` of
-- app/services/apdu_handler.py. `none` is the exception that a call raises: an IndexError on a
-- truncated length, an OverflowError on a tag of three bytes.
use euicc_simulator.Prelude.{
  ℕ, zero, suc, ◌+◌, ◌*◌, ◌/◌, ◌%◌, Option, none, some, List, [], ◌∷◌, ◌++◌, Bytes, Text, codes,
  ltb, ◌==◌, if◌then◌else◌, length, take, drop,
}
use euicc_simulator.Services.Tags.{command_name}

-- `data[i]`.
abbrev pub long_length : ℕ → Bytes → Option (ℕ × ℕ)
long_length d (a ∷ b ∷ c ∷ _) =
    if d == 0x81
    then some (a, 2)
    else if d == 0x82
    then some (a * 256 + b, 3)
    else if d == 0x83
    then some (a * 65536 + b * 256 + c, 4)
    else some (0, 0)
long_length d (a ∷ b ∷ []) =
    if d == 0x81
    then some (a, 2)
    else if d == 0x82
    then some (a * 256 + b, 3)
    else if d == 0x83
    then none
    else some (0, 0)
long_length d (a ∷ []) =
    if d == 0x81
    then some (a, 2)
    else if d == 0x82
    then none
    else if d == 0x83
    then none
    else some (0, 0)
long_length d [] =
    if d == 0x81 then none else if d == 0x82 then none else if d == 0x83 then none else some (0, 0)

unfoldable pub parse_der_length : Bytes → Option (ℕ × ℕ)
parse_der_length [] = some (0, 0)
parse_der_length (d ∷ r) = if ltb d 0x80 then some (d, 1) else long_length d r

-- The value behind the length field, and the tag's name.
abbrev pub identified : ℕ → Bytes → Option (ℕ × ℕ) → Option (ℕ × Text × Bytes)
identified tag rest none = none
identified tag rest (some (n, len_bytes)) =
    some (tag, command_name tag, take n (drop len_bytes rest))

unfoldable pub identify_command : Bytes → Option (ℕ × Text × Bytes)
unfolding parse_der_length
identify_command (a ∷ b ∷ r) =
    if a == 0xBF
    then identified (a * 256 + b) r (parse_der_length r)
    else identified a (b ∷ r) (parse_der_length (b ∷ r))
identify_command payload = some (0, codes "Unknown", payload)

unfoldable pub tag_bytes : ℕ → Option Bytes
tag_bytes tag =
    if ltb 0xFF tag
    then (if ltb tag 0x10000 then some ((tag / 256) ∷ (tag % 256) ∷ []) else none)
    else some (tag ∷ [])

unfoldable pub length_bytes : ℕ → Bytes
length_bytes n =
    if ltb n 0x80
    then n ∷ []
    else if ltb n 0x100
    then 0x81 ∷ n ∷ []
    else if ltb n 0x10000
    then 0x82 ∷ (n / 256 % 256) ∷ (n % 256) ∷ []
    else 0x83 ∷ (n / 65536 % 256) ∷ (n / 256 % 256) ∷ (n % 256) ∷ []

abbrev pub with_tag : Option Bytes → Bytes → Option Bytes
with_tag none r = none
with_tag (some t) r = some (t ++ r)

unfoldable pub build_tlv : ℕ → Bytes → Option Bytes
unfolding tag_bytes length_bytes
build_tlv tag payload = with_tag (tag_bytes tag) (length_bytes (length payload) ++ payload)

abbrev with_sw : Option Bytes → Option Bytes
with_sw none = none
with_sw (some tlv) = some (tlv ++ 0x90 ∷ 0x00 ∷ [])

unfoldable pub build_response_apdu : ℕ → Bytes → Option Bytes
unfolding build_tlv
build_response_apdu tag response = with_sw (build_tlv tag response)

-- The loop of `segment_response` on the bytes from `offset` on; fuel counts the rounds.
unfoldable pub segment_response : ℕ → Bytes → ℕ → List Bytes
segment_response zero rest max_segment_size = []
segment_response (suc fuel) [] max_segment_size = []
segment_response (suc fuel) (x ∷ xs) max_segment_size =
    take max_segment_size (x ∷ xs)
    ∷ segment_response fuel (drop max_segment_size (x ∷ xs)) max_segment_size
