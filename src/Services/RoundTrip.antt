-- ===== src/Services/RoundTrip.antt =====
-- TLV coding of app/services/apdu_handler.py: what `build_tlv` writes `identify_command` reads back,
-- and segmented responses join to the response.
use euicc_simulator.Prelude.{
  ℕ, zero, suc, ◌+◌, ◌*◌, ◌/◌, ◌%◌, ◌≤◌, ◌<◌, ◌≡◌, ◌≢◌, ◌⊎◌, inl, inr, refl, ap, ◌∙◌, true, false,
  some, List, [], ◌∷◌, ◌++◌, append_assoc, Bytes, arith, ltb, length, drop, take-append,
  drop-append, take-append-drop, length-take, length-drop, Bool-cases,
}
use euicc_simulator.Transport.TcpProtocol.{join}
use euicc_simulator.Services.Tags.{command_name}
use euicc_simulator.Services.Tlv.{
  long_length, parse_der_length, identified, identify_command, length_bytes, build_tlv,
  segment_response,
}

long_length_81 : (n : ℕ) (r : Bytes) → long_length 0x81 (n ∷ r) ≡ some (n, 2)
long_length_81 n [] = refl
long_length_81 n (x ∷ []) = refl
long_length_81 n (x ∷ y ∷ r) = refl

long_length_82 : (h l : ℕ) (r : Bytes) → long_length 0x82 (h ∷ l ∷ r) ≡ some (h * 256 + l, 3)
long_length_82 h l [] = refl
long_length_82 h l (x ∷ r) = refl

-- The length field is read back, whatever follows it.
parse-length_bytes :
    (n : ℕ) (r : Bytes)
    → n < 16777216
    → parse_der_length (length_bytes n ++ r) ≡ some (n, length (length_bytes n))
unfolding parse_der_length length_bytes
parse-length_bytes n r h = elim (Bool-cases (ltb n 0x80)) [
  | inl short ↦ rw (short, short)
  | inr long ↦ elim (Bool-cases (ltb n 0x100)) [
    | inl one ↦ rw (long, one) (long_length_81 n r)
    | inr more ↦ elim (Bool-cases (ltb n 0x10000)) [
      | inl two ↦
          let e : n / 256 % 256 * 256 + n % 256 ≡ n = ground arith in
          rw (long, more, two)
            (long_length_82 (n / 256 % 256) (n % 256) r ∙ ap (λ t. some (t, 3)) e)
      | inr three ↦
          let e : n / 65536 % 256 * 65536 + n / 256 % 256 * 256 + n % 256 ≡ n = omega arith in
          rw (long, more, three) (ap (λ t. some (t, 4)) e)
    ]
  ]
]

-- The value is cut out behind the length field.
identified-length_bytes :
    (tag : ℕ) (payload rest : Bytes)
    → length payload < 16777216
    → let r = length_bytes (length payload) ++ (payload ++ rest) in
      identified tag r (parse_der_length r) ≡ some (tag, command_name tag, payload)
identified-length_bytes tag payload rest h =
    let field = length_bytes (length payload) in
    rw (
      parse-length_bytes (length payload) (payload ++ rest) h,
      drop-append field (payload ++ rest),
      take-append payload rest,
    )

identify_two :
    (a b : ℕ) (r : Bytes)
    → a ≡ 0xBF
    → identify_command (a ∷ b ∷ r) ≡ identified (a * 256 + b) r (parse_der_length r)
unfolding identify_command
identify_two a b r h = ground arith

identify_one :
    (a : ℕ) (r : Bytes)
    → a ≢ 0xBF
    → r ≢ []
    → identify_command (a ∷ r) ≡ identified a r (parse_der_length r)
unfolding identify_command
identify_one a [] h ne = absurd (ne refl)
identify_one a (b ∷ r) h ne = ground arith

length_bytes-ne-nil : (n : ℕ) (r : Bytes) → length_bytes n ++ r ≢ []
unfolding length_bytes
length_bytes-ne-nil n r = ground arith

-- The tags that `identify_command` can tell: two bytes from 0xBF00 on, or one byte that is not 0xBF.
abbrev pub IsTag : ℕ → Type 0
IsTag tag = (tag / 256 ≡ 0xBF) ⊎ ((tag ≤ 0xFF) × (tag ≢ 0xBF))

-- Round trip: under a tag that can be told, a value of less than 2^24 bytes is built into a TLV, and
-- from that TLV, whatever follows it, `identify_command` reads the tag, its name and the value.
pub identify-build_tlv :
    (tag : ℕ) (payload : Bytes)
    → IsTag tag
    → length payload < 16777216
    → (tlv : Bytes) × (build_tlv tag payload ≡ some tlv)
      × ((rest : Bytes) → identify_command (tlv ++ rest) ≡ some (tag, command_name tag, payload))
unfolding build_tlv
identify-build_tlv tag payload (inl two) h =
    let field = length_bytes (length payload) in
    let big : ltb 0xFF tag ≡ true = ground arith in
    let fits : ltb tag 0x10000 ≡ true = ground arith in
    let whole : tag / 256 * 256 + tag % 256 ≡ tag = omega arith in
    (
      tag / 256 ∷ tag % 256 ∷ field ++ payload,
      rw (big, fits),
      λ rest. rw (append_assoc field payload rest) (
          identify_two (tag / 256) (tag % 256) (field ++ (payload ++ rest)) two
          ∙ rw whole (identified-length_bytes tag payload rest h)),
    )
identify-build_tlv tag payload (inr one) h =
    let field = length_bytes (length payload) in
    let small : ltb 0xFF tag ≡ false = ground arith in
    (
      tag ∷ field ++ payload,
      rw small,
      λ rest. rw (append_assoc field payload rest) (
          identify_one tag (field ++ (payload ++ rest)) one.1
            (length_bytes-ne-nil (length payload) (payload ++ rest))
          ∙ identified-length_bytes tag payload rest h),
    )

-- The chunks of a response, each at most the given size.
abbrev pub AllWithin : ℕ → List Bytes → Type 0
AllWithin m [] = Unit {0}
AllWithin m (c ∷ cs) = (length c ≤ m) × AllWithin m cs

-- Cut into chunks of a positive size, with as many rounds as it has bytes, a response is the join of
-- its chunks, and no chunk is longer than the size.
pub join-segment_response :
    (fuel : ℕ) (response : Bytes) (m : ℕ)
    → 0 < m
    → length response ≤ fuel
    → (join (segment_response fuel response m) ≡ response)
      × AllWithin m (segment_response fuel response m)
unfolding segment_response join
join-segment_response zero [] m p h = (refl, tt)
join-segment_response zero (x ∷ xs) m p h = absurd (omega arith)
join-segment_response (suc fuel) [] m p h = (refl, tt)
join-segment_response (suc fuel) (x ∷ xs) m p h =
    let size = length-drop m (x ∷ xs) in
    let (joined, within) = join-segment_response fuel (drop m (x ∷ xs)) m p (omega arith) in
    (rw joined (take-append-drop m (x ∷ xs)), (omega (arith, length-take m (x ∷ xs)), within))
