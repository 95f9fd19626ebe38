-- ===== src/Services/Transfer.antt =====
-- What `base64` of Python encodes, it decodes: app/services/asn1_codec.py.
use euicc_simulator.Prelude.{
  ℕ, ◌+◌, ◌*◌, ◌/◌, ◌%◌, ◌<◌, ◌≡◌, refl, sym, ap, ◌∙◌, true, false, some, [], ◌∷◌, ◌++◌,
  append_assoc, Bytes, Text, arith, ltb, ◌==◌, append-nil,
}
use euicc_simulator.Services.Base64.{
  to_char, of_char, b64encode, Decoder, new_decoder, take_bits, next_char, decode_all, finished,
  is_ascii, b64decode,
}

of_char-to_char : (v : ℕ) → v < 64 → of_char (to_char v) ≡ some v
unfolding of_char to_char
of_char-to_char v h = ground arith

to_char-data : (v : ℕ) → v < 64 → (to_char v == b'=') ≡ false
unfolding to_char
to_char-data v h = ground arith

to_char-ascii : (v : ℕ) → v < 64 → ltb (to_char v) 128 ≡ true
unfolding to_char
to_char-ascii v h = ground arith

next_char-to_char :
    (v : ℕ) (d : Decoder) → v < 64 → d.stopped ≡ false → next_char (to_char v) d ≡ take_bits v d
unfolding next_char
next_char-to_char v d h going = simp (going, to_char-data v h, of_char-to_char v h)

-- The decoder between two groups of four characters.
abbrev at_group : Bytes → Decoder
at_group out = record new_decoder { out = out }

-- The octets of a byte string.
abbrev pub AreOctets : Bytes → Type 0
AreOctets [] = Unit {0}
AreOctets (b ∷ bs) = (b < 256) × AreOctets bs

decode_step :
    (v : ℕ) (rest : Text) (d : Decoder)
    → v < 64
    → d.stopped ≡ false
    → decode_all (to_char v ∷ rest) d ≡ decode_all rest (take_bits v d)
unfolding decode_all
decode_step v rest d h going = ap (decode_all rest) (next_char-to_char v d h going)

-- The states within a group, from the values of its characters.
abbrev second : ℕ → Bytes → Decoder
second v out = record new_decoder { quad_pos = 1; leftchar = v; out = out }

abbrev third : ℕ → Bytes → Decoder
third v out = record new_decoder { quad_pos = 2; leftchar = v; out = out }

abbrev fourth : ℕ → Bytes → Decoder
fourth v out = record new_decoder { quad_pos = 3; leftchar = v; out = out }

-- The first two characters of a group give its first byte, with the bits of the next, `v`.
first_byte :
    (a v w : ℕ) (rest : Text) (out : Bytes)
    → a < 256
    → v < 16
    → w ≡ a % 4 * 16 + v
    → decode_all (to_char (a / 4) ∷ to_char w ∷ rest) (at_group out)
      ≡ decode_all rest (third v (out ++ a ∷ []))
first_byte a v w rest out ha hv e =
    let value : a / 4 * 4 + w / 16 ≡ a = omega arith in
    let left : w % 16 ≡ v = omega arith in
    decode_step (a / 4) (to_char w ∷ rest) (at_group out) (omega arith) refl
    ∙ decode_step w rest (second (a / 4) out) (omega arith) refl
    ∙ rw (value, left) refl

-- The third gives the second.
second_byte :
    (b v w : ℕ) (rest : Text) (out : Bytes)
    → b < 256
    → v < 4
    → w ≡ b % 16 * 4 + v
    → decode_all (to_char w ∷ rest) (third (b / 16) out)
      ≡ decode_all rest (fourth v (out ++ b ∷ []))
second_byte b v w rest out hb hv e =
    let value : b / 16 * 16 + w / 4 ≡ b = omega arith in
    let left : w % 4 ≡ v = omega arith in
    decode_step w rest (third (b / 16) out) (omega arith) refl ∙ rw (value, left) refl

third_byte :
    (c : ℕ) (rest : Text) (out : Bytes)
    → c < 256
    → decode_all (to_char (c % 64) ∷ rest) (fourth (c / 64) out)
      ≡ decode_all rest (at_group (out ++ c ∷ []))
third_byte c rest out hc =
    let value : c / 64 * 64 + c % 64 ≡ c = omega arith in
    decode_step (c % 64) rest (fourth (c / 64) out) (omega arith) refl ∙ rw value refl

decode_nothing : (out : Bytes) → finished (decode_all [] (at_group out)) ≡ some (out ++ [])
unfolding decode_all
decode_nothing out = ap some (sym (append-nil out))

-- The padding ends the text, behind one byte of a group or two.
padded_one : (out : Bytes) → finished (decode_all (b'=' ∷ b'=' ∷ []) (third 0 out)) ≡ some out
unfolding decode_all next_char
padded_one out = refl

padded_two : (out : Bytes) → finished (decode_all (b'=' ∷ []) (fourth 0 out)) ≡ some out
unfolding decode_all next_char
padded_two out = refl

-- The decoder, from the start of a group, gives the bytes behind what it has written.
decode_all-b64encode :
    (bs out : Bytes)
    → AreOctets bs
    → finished (decode_all (b64encode bs) (at_group out)) ≡ some (out ++ bs)
unfolding b64encode
decode_all-b64encode [] out h = decode_nothing out
decode_all-b64encode (a ∷ []) out (ha, h) =
    ap finished (first_byte a 0 (a % 4 * 16) (b'=' ∷ b'=' ∷ []) out ha (omega arith) (omega arith))
    ∙ padded_one (out ++ a ∷ [])
decode_all-b64encode (a ∷ b ∷ []) out (ha, (hb, h)) =
    ap finished (
      first_byte a (b / 16) (a % 4 * 16 + b / 16) (to_char (b % 16 * 4) ∷ b'=' ∷ []) out ha
        (omega arith) refl
      ∙ second_byte b 0 (b % 16 * 4) (b'=' ∷ []) (out ++ a ∷ []) hb (omega arith) (omega arith))
    ∙ padded_two ((out ++ a ∷ []) ++ b ∷ [])
    ∙ ap some (append_assoc out (a ∷ []) (b ∷ []))
decode_all-b64encode (a ∷ b ∷ c ∷ rest) out (ha, (hb, (hc, h))) =
    ap finished (
      first_byte a (b / 16) (a % 4 * 16 + b / 16) _ out ha (omega arith) refl
      ∙ second_byte b (c / 64) (b % 16 * 4 + c / 64) _ (out ++ a ∷ []) hb (omega arith) refl
      ∙ third_byte c (b64encode rest) ((out ++ a ∷ []) ++ b ∷ []) hc)
    ∙ decode_all-b64encode rest (((out ++ a ∷ []) ++ b ∷ []) ++ c ∷ []) h
    ∙ ap some (simp append_assoc)

is_ascii-b64encode : (bs : Bytes) → AreOctets bs → is_ascii (b64encode bs) ≡ true
unfolding b64encode
is_ascii-b64encode [] h = refl
is_ascii-b64encode (a ∷ []) (ha, h) =
    rw (to_char-ascii (a / 4) (omega arith), to_char-ascii (a % 4 * 16) (omega arith)) refl
is_ascii-b64encode (a ∷ b ∷ []) (ha, (hb, h)) =
    rw
      (
        to_char-ascii (a / 4) (omega arith),
        to_char-ascii (a % 4 * 16 + b / 16) (omega arith),
        to_char-ascii (b % 16 * 4) (omega arith),
      )
      refl
is_ascii-b64encode (a ∷ b ∷ c ∷ rest) (ha, (hb, (hc, h))) =
    rw
      (
        to_char-ascii (a / 4) (omega arith),
        to_char-ascii (a % 4 * 16 + b / 16) (omega arith),
        to_char-ascii (b % 16 * 4 + c / 64) (omega arith),
        to_char-ascii (c % 64) (omega arith),
      )
      (is_ascii-b64encode rest h)

-- `b64decode` gives back what `b64encode` was given, for any bytes.
pub b64decode-b64encode : (bs : Bytes) → AreOctets bs → b64decode (b64encode bs) ≡ some bs
unfolding b64decode
b64decode-b64encode bs h = rw (is_ascii-b64encode bs h) (decode_all-b64encode bs [] h)
