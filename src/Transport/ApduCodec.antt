-- ===== src/Transport/ApduCodec.antt =====
-- app/transport/apdu_codec.py: ISO 7816-4 commands and their encodings. Every element of a byte
-- string is below 256, so `(a << 8) | b` is `a * 256 + b`.
use euicc_simulator.Prelude.{
  ℕ, zero, suc, ◌+◌, ◌*◌, ◌/◌, ◌%◌, Bool, not, ◌&&◌, ◌||◌, Option, none, some, List, [], ◌∷◌, ◌++◌,
  Bytes, truthy, has_bit, ltb, ◌==◌, if◌then◌else◌, length, take, drop, get_elem?, get_or,
}

pub record ApduCommand : Type 0 where
  pub cla : ℕ
  pub ins : ℕ
  pub p1 : ℕ
  pub p2 : ℕ
  pub payload : Bytes
  pub le : Option ℕ

-- The property `case`.
unfoldable pub apdu_case : ApduCommand → ℕ
apdu_case c = elim c.le [
  | some n ↦ if truthy c.payload then 4 else 2
  | none ↦ if truthy c.payload then 3 else 1
]

unfoldable pub is_last_block : ApduCommand → Bool
is_last_block c = has_bit c.p1 0x80

-- The bytes that the Le heuristic takes for the next command's class.
abbrev pub is_cla : ℕ → Bool
is_cla b = b == 0x80 || (b == 0x84 || (b == 0x00 || (b == 0x0C || b == 0x04)))

abbrev pub short_le : ℕ → ℕ
short_le b = if b == 0 then 256 else b

-- `le`, from the byte after the data if there is one.
abbrev pub trailing_le : Option ℕ → Option ℕ
trailing_le none = none
trailing_le (some maybe_le) = if is_cla maybe_le then none else some (short_le maybe_le)

abbrev pub command : ℕ → ℕ → ℕ → ℕ → Bytes → Option ℕ → ApduCommand
command cla ins p1 p2 payload le = record {
  cla = cla;
  ins = ins;
  p1 = p1;
  p2 = p2;
  payload = payload;
  le = le;
}

-- The rest of `decode` once `lc` and `data_start` are known, on the bytes behind the header.
abbrev pub decode_data : (Bytes → Option ℕ → ApduCommand) → ℕ → ℕ → Bytes → Option ApduCommand
decode_data build data_start lc remaining =
    if ltb (length remaining) (data_start + lc)
    then none
    else some (
        build (take lc (drop data_start remaining))
          (trailing_le (get_elem? remaining (data_start + lc))))

-- The body's cases: nothing, Le alone, a short or an extended Lc.
abbrev pub decode_body : (Bytes → Option ℕ → ApduCommand) → Bytes → Option ApduCommand
decode_body build [] = some (build [] none)
decode_body build (b ∷ []) = some (build [] (some (short_le b)))
decode_body build (zero ∷ h ∷ []) = none
decode_body build (zero ∷ h ∷ l ∷ r) = decode_data build 3 (h * 256 + l) (zero ∷ h ∷ l ∷ r)
decode_body build (suc n ∷ h ∷ r) = decode_data build 1 (suc n) (suc n ∷ h ∷ r)

unfoldable pub decode : Bytes → Option ApduCommand
decode (cla ∷ ins ∷ p1 ∷ p2 ∷ remaining) = decode_body (command cla ins p1 p2) remaining
decode _ = none

-- The end of `frame_size`: enough bytes, and one more where the next is no class byte.
abbrev pub with_le : ℕ → Bytes → Option ℕ
with_le total raw =
    if ltb (length raw) total
    then none
    else some
        (if ltb total (length raw) && not (is_cla (get_or raw total 0)) then total + 1 else total)

abbrev pub frame_body : Bytes → Bytes → Option ℕ
frame_body raw [] = some 4
frame_body raw (suc n ∷ r) = with_le (4 + 1 + suc n) raw
frame_body raw (zero ∷ []) = none
frame_body raw (zero ∷ h ∷ []) = none
frame_body raw (zero ∷ h ∷ l ∷ r) = with_le (4 + 3 + (h * 256 + l)) raw

unfoldable pub frame_size : Bytes → Option ℕ
frame_size (cla ∷ ins ∷ p1 ∷ p2 ∷ body) = frame_body (cla ∷ ins ∷ p1 ∷ p2 ∷ body) body
frame_size _ = none

abbrev pub minimum_body : Bytes → Option ℕ
minimum_body [] = none
minimum_body (suc n ∷ r) = some (4 + 1 + suc n)
minimum_body (zero ∷ []) = none
minimum_body (zero ∷ h ∷ []) = none
minimum_body (zero ∷ h ∷ l ∷ r) = some (4 + 3 + (h * 256 + l))

unfoldable pub minimum_frame_size : Bytes → Option ℕ
minimum_frame_size (cla ∷ ins ∷ p1 ∷ p2 ∷ body) = minimum_body body
minimum_frame_size _ = none

unfoldable pub encode_error : ℕ → Bytes
encode_error sw = (sw / 256 % 256) ∷ (sw % 256) ∷ []

unfoldable pub encode_response : Bytes → ℕ → Bytes
encode_response payload sw = payload ++ ((sw / 256 % 256) ∷ (sw % 256) ∷ [])

-- `bytes([…])` of numbers; `none` is its ValueError.
unfoldable pub to_bytes : List ℕ → Option Bytes
to_bytes [] = some []
to_bytes (n ∷ ns) = elim (to_bytes ns) [
  | none ↦ none
  | some bs ↦ if ltb n 256 then some (n ∷ bs) else none
]

abbrev append_to : Option Bytes → Bytes → Option Bytes
append_to none b = none
append_to (some a) b = some (a ++ b)

unfoldable pub build_select : Bytes → Option Bytes
unfolding to_bytes
build_select aid = append_to (to_bytes (0x80 ∷ 0xA4 ∷ 0x04 ∷ 0x00 ∷ length aid ∷ [])) aid

unfoldable pub build_store_data : ℕ → ℕ → Bytes → Option Bytes
unfolding to_bytes
build_store_data p1 p2 payload =
    append_to (to_bytes (0x80 ∷ 0xE2 ∷ p1 ∷ p2 ∷ length payload ∷ [])) payload
