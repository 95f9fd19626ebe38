-- ===== src/Services/ApduHandler.antt =====
-- The segment buffer and `ApduProcessor` of app/services/apdu_handler.py.
use euicc_simulator.Prelude.{
  ℕ, ◌+◌, Bool, true, false, not, ◌||◌, Option, none, some, List, [], ◌∷◌, ◌++◌, Bytes, bytes_eq,
  has_bit, ltb, ◌==◌, if◌then◌else◌, length, take, drop, get_or,
}
use euicc_simulator.Transport.TcpProtocol.{join}

abbrev pub isdr_aid : Bytes
isdr_aid =
    0xA0 ∷ 0x00 ∷ 0x00 ∷ 0x05 ∷ 0x59 ∷ 0x10 ∷ 0x10 ∷ 0xFF ∷ 0xFF ∷ 0xFF ∷ 0xFF ∷ 0x89 ∷ 0x00 ∷ 0x00
    ∷ 0x10 ∷ 0x00 ∷ []

abbrev pub sw_ok : Bytes
sw_ok = 0x90 ∷ 0x00 ∷ []

abbrev pub sw_conditions_not_satisfied : Bytes
sw_conditions_not_satisfied = 0x69 ∷ 0x85 ∷ []

abbrev pub sw_file_not_found : Bytes
sw_file_not_found = 0x6A ∷ 0x82 ∷ []

abbrev pub sw_wrong_length : Bytes
sw_wrong_length = 0x67 ∷ 0x00 ∷ []

pub record SegmentBuffer : Type 0 where
  pub segments : List Bytes
  pub expected_block : ℕ
  pub is_complete : Bool

abbrev pub cleared : SegmentBuffer
cleared = record { segments = []; expected_block = 0; is_complete = false }

unfoldable pub add_block : ℕ → ℕ → Bytes → SegmentBuffer → Bool × SegmentBuffer
add_block p1 p2 payload b =
    if not (p2 == b.expected_block)
    then (false, b)
    else if has_bit p1 0x80
    then (
      true,
      record {
        segments = b.segments ++ payload ∷ [];
        expected_block = b.expected_block + 1;
        is_complete = true;
      },
    )
    else (
      false,
      record b { segments = b.segments ++ payload ∷ []; expected_block = b.expected_block + 1 },
    )

unfoldable pub get_complete_data : SegmentBuffer → Bytes
get_complete_data b = join b.segments

pub record ApduProcessor : Type 0 where
  pub selected_aid : Option Bytes
  pub logical_channel : ℕ
  pub segment_buffer : SegmentBuffer

abbrev pub new_processor : ApduProcessor
new_processor = record { selected_aid = none; logical_channel = 0; segment_buffer = cleared }

unfoldable pub process_select : Bytes → ApduProcessor → Bytes × ApduProcessor
process_select aid p =
    if bytes_eq aid isdr_aid || bytes_eq aid (take 8 isdr_aid)
    then (sw_ok, record p { selected_aid = some isdr_aid })
    else (sw_file_not_found, p)

abbrev is_selected : Option Bytes → Bool
is_selected none = false
is_selected (some aid) = bytes_eq aid isdr_aid

unfoldable pub process_store_data : ℕ → ℕ → Bytes → ApduProcessor → Bytes × ApduProcessor
unfolding add_block get_complete_data
process_store_data p1 p2 payload p =
    let (is_last, b) = add_block p1 p2 payload p.segment_buffer in
    if not (is_selected p.selected_aid)
    then (sw_conditions_not_satisfied, p)
    else if not is_last
    then (sw_ok, record p { segment_buffer = b })
    else (get_complete_data b ++ sw_ok, record p { segment_buffer = cleared })

-- `apdu[5 : 5 + lc]`, where there are more than five bytes.
abbrev pub data_field : Bytes → Bytes
data_field apdu = if ltb 5 (length apdu) then take (get_or apdu 4 0) (drop 5 apdu) else []

unfoldable pub process_apdu : Bytes → ApduProcessor → Bytes × ApduProcessor
unfolding process_select process_store_data
process_apdu apdu p =
    let ins = get_or apdu 1 0 in
    let p1 = get_or apdu 2 0 in
    let p2 = get_or apdu 3 0 in
    if ltb (length apdu) 4
    then (sw_wrong_length, p)
    else if ins == 0xA4
    then process_select (data_field apdu) p
    else if ins == 0xE2
    then process_store_data p1 p2 (data_field apdu) p
    else (sw_conditions_not_satisfied, p)
