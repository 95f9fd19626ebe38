-- ===== src/Services/Base64.antt =====
-- `base64.b64encode` and `base64.b64decode` of Python, which app/services/asn1_codec.py uses: the
-- decoder is the loop of `binascii.a2b_base64`, which passes over characters outside the alphabet.
use euicc_simulator.Prelude.{
  ℕ, ◌+◌, ◌-◌, ◌*◌, ◌/◌, ◌%◌, Bool, true, false, ◌&&◌, Option, none, some, [], ◌∷◌, ◌++◌, Bytes,
  Text, ltb, leb, ◌==◌, if◌then◌else◌,
}

-- The character of six bits.
unfoldable pub to_char : ℕ → ℕ
to_char v =
    if ltb v 26
    then 65 + v
    else if ltb v 52
    then 71 + v
    else if ltb v 62
    then v - 4
    else if v == 62
    then b'+'
    else b'/'

-- The six bits of a character of the alphabet.
unfoldable pub of_char : ℕ → Option ℕ
of_char c =
    if leb b'A' c && leb c b'Z'
    then some (c - 65)
    else if leb b'a' c && leb c b'z'
    then some (c - 71)
    else if leb b'0' c && leb c b'9'
    then some (c + 4)
    else if c == b'+'
    then some 62
    else if c == b'/'
    then some 63
    else none

unfoldable pub b64encode : Bytes → Text
unfolding to_char
b64encode [] = []
b64encode (a ∷ []) = to_char (a / 4) ∷ to_char (a % 4 * 16) ∷ b'=' ∷ b'=' ∷ []
b64encode (a ∷ b ∷ []) =
    to_char (a / 4) ∷ to_char (a % 4 * 16 + b / 16) ∷ to_char (b % 16 * 4) ∷ b'=' ∷ []
b64encode (a ∷ b ∷ c ∷ rest) =
    to_char (a / 4)
    ∷ to_char (a % 4 * 16 + b / 16)
    ∷ to_char (b % 16 * 4 + c / 64)
    ∷ to_char (c % 64)
    ∷ b64encode rest

-- The variables of the loop; `stopped` is the jump to its end, `out` what has been written.
pub record Decoder : Type 0 where
  pub quad_pos : ℕ
  pub leftchar : ℕ
  pub pads : ℕ
  pub stopped : Bool
  pub out : Bytes

abbrev pub new_decoder : Decoder
new_decoder = record { quad_pos = 0; leftchar = 0; pads = 0; stopped = false; out = [] }

-- The switch on `quad_pos`, with the six bits of the character.
abbrev pub take_bits : ℕ → Decoder → Decoder
take_bits v d =
    if d.quad_pos == 0
    then record d { quad_pos = 1; leftchar = v; pads = 0 }
    else if d.quad_pos == 1
    then record d {
      quad_pos = 2;
      leftchar = v % 16;
      pads = 0;
      out = d.out ++ (d.leftchar * 4 + v / 16) ∷ [];
    }
    else if d.quad_pos == 2
    then record d {
      quad_pos = 3;
      leftchar = v % 4;
      pads = 0;
      out = d.out ++ (d.leftchar * 16 + v / 4) ∷ [];
    }
    else record d {
      quad_pos = 0;
      leftchar = 0;
      pads = 0;
      out = d.out ++ (d.leftchar * 64 + v) ∷ [];
    }

abbrev pub or_skipped : Option ℕ → Decoder → Decoder
or_skipped none d = d
or_skipped (some v) d = take_bits v d

-- One character.
unfoldable pub next_char : ℕ → Decoder → Decoder
unfolding of_char
next_char c d =
    if d.stopped
    then d
    else if c == b'='
    then (if leb 2 d.quad_pos
        then record d { pads = d.pads + 1; stopped = leb 4 (d.quad_pos + (d.pads + 1)) }
        else d)
    else or_skipped (of_char c) d

unfoldable pub decode_all : Text → Decoder → Decoder
unfolding next_char
decode_all [] d = d
decode_all (c ∷ cs) d = decode_all cs (next_char c d)

-- The result; `none` is the error of a wrong padding.
abbrev pub finished : Decoder → Option Bytes
finished d = if d.stopped then some d.out else if d.quad_pos == 0 then some d.out else none

-- `s.encode("ascii")`; `none` is the ValueError.
abbrev pub is_ascii : Text → Bool
is_ascii [] = true
is_ascii (c ∷ cs) = ltb c 128 && is_ascii cs

unfoldable pub b64decode : Text → Option Bytes
unfolding decode_all
b64decode s = if is_ascii s then finished (decode_all s new_decoder) else none
