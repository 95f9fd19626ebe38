-- ===== src/Transport/Frames.antt =====
-- Frames of app/transport/apdu_codec.py: their size, what `decode` makes of them, and the round trip
-- through `build_store_data`.
use euicc_simulator.Prelude.{
  ℕ, zero, suc, ◌+◌, ◌-◌, ◌*◌, ◌≤◌, ◌≡◌, ◌≢◌, refl, sym, subst, ◌∙◌, true, Option, none, some, [],
  ◌∷◌, ◌++◌, Bytes, arith, length, length-append, length-take, take, drop, take_all, get_elem?,
  get_or,
}
use euicc_simulator.Transport.ApduCodec.{
  ApduCommand, is_cla, trailing_le, command, decode_data, decode_body, decode, with_le, frame_size,
  build_store_data,
}

with_le_bounds :
    (total : ℕ) (raw : Bytes) (n : ℕ)
    → 4 ≤ total
    → with_le total raw ≡ some n
    → (4 ≤ n) × (n ≤ length raw)
with_le_bounds total raw n h e = ground arith

-- A frame has at least its header, and lies within the buffer.
pub frame_size_bounds : (raw : Bytes) (n : ℕ) → frame_size raw ≡ some n → (4 ≤ n) × (n ≤ length raw)
unfolding frame_size
frame_size_bounds (a ∷ b ∷ c ∷ d ∷ []) n e = ground arith
frame_size_bounds (a ∷ b ∷ c ∷ d ∷ suc k ∷ r) n e =
    with_le_bounds (4 + 1 + suc k) (a ∷ b ∷ c ∷ d ∷ suc k ∷ r) n (omega arith) e
frame_size_bounds (a ∷ b ∷ c ∷ d ∷ zero ∷ h ∷ l ∷ r) n e =
    with_le_bounds (4 + 3 + (h * 256 + l)) (a ∷ b ∷ c ∷ d ∷ zero ∷ h ∷ l ∷ r) n (omega arith) e
frame_size_bounds (a ∷ b ∷ c ∷ d ∷ zero ∷ h ∷ []) n e = absurd (cc)
frame_size_bounds (a ∷ b ∷ c ∷ d ∷ zero ∷ []) n e = absurd (cc)
frame_size_bounds (a ∷ b ∷ c ∷ []) n e = absurd (cc)
frame_size_bounds (a ∷ b ∷ []) n e = absurd (cc)
frame_size_bounds (a ∷ []) n e = absurd (cc)
frame_size_bounds [] n e = absurd (cc)

decode_data_complete :
    (build : Bytes → Option ℕ → ApduCommand) (data_start lc : ℕ) (remaining : Bytes)
    → data_start + lc ≤ length remaining
    → decode_data build data_start lc remaining
      ≡ some (
          build
            (take lc (drop data_start remaining))
            (trailing_le (get_elem? remaining (data_start + lc))))
decode_data_complete build data_start lc remaining h = ground arith

length-take-le : (n : ℕ) (xs : Bytes) → n ≤ length xs → length (take n xs) ≡ n
length-take-le n xs h = omega (arith, length-take n xs)

-- The body of a frame with a short Lc, cut behind at least Lc bytes.
short_body :
    (a b c d k m : ℕ) (r : Bytes)
    → suc k ≤ m
    → m ≤ length r
    → (cmd : ApduCommand) × (decode_body (command a b c d) (suc k ∷ take m r) ≡ some cmd)
      × (length cmd.payload ≡ suc k)
      × (cmd.p1 ≡ c)
short_body a b c d k zero r h l = absurd (omega arith)
short_body a b c d k (suc m) [] h l = absurd (omega arith)
short_body a b c d k (suc m) (x ∷ r) h l =
    let full : length (take m r) ≡ m = length-take-le m r (omega arith) in
    (
      _,
      decode_data_complete (command a b c d) 1 (suc k) (suc k ∷ x ∷ take m r) (omega arith),
      length-take-le (suc k) (x ∷ take m r) (omega arith),
      refl,
    )

extended_body :
    (a b c d h l m : ℕ) (r : Bytes)
    → h * 256 + l ≤ m
    → m ≤ length r
    → (cmd : ApduCommand) × (decode_body (command a b c d) (zero ∷ h ∷ l ∷ take m r) ≡ some cmd)
      × (length cmd.payload ≡ h * 256 + l)
      × (cmd.p1 ≡ c)
extended_body a b c d h l m r lo hi =
    let full : length (take m r) ≡ m = length-take-le m r hi in
    (
      _,
      decode_data_complete (command a b c d) 3 (h * 256 + l) (zero ∷ h ∷ l ∷ take m r)
          (omega arith),
      length-take-le (h * 256 + l) (take m r) (omega arith),
      refl,
    )

with_le_range :
    (total : ℕ) (raw : Bytes) (n : ℕ) → with_le total raw ≡ some n → (total ≤ n) × (n ≤ length raw)
with_le_range total raw n e = ground arith

-- The frame that the parser cuts off is never dropped: `decode` accepts it, with a payload that
-- lies within it.
pub decode_frame :
    (raw : Bytes) (n : ℕ)
    → frame_size raw ≡ some n
    → (cmd : ApduCommand) × (decode (take n raw) ≡ some cmd) × (4 + length cmd.payload ≤ n)
unfolding frame_size decode
decode_frame (a ∷ b ∷ c ∷ d ∷ []) n e =
    let four : n ≡ 4 = ground arith in rw four (_, refl, omega arith)
decode_frame (a ∷ b ∷ c ∷ d ∷ suc k ∷ r) n e =
    let bounds = with_le_range (4 + 1 + suc k) (a ∷ b ∷ c ∷ d ∷ suc k ∷ r) n e in
    let cut : n ≡ suc (suc (suc (suc (suc (n - 5))))) = omega arith in
    let (cmd, ok, size, _) = short_body a b c d k (n - 5) r (omega arith) (omega arith) in
    (
      cmd,
      subst (λ t. decode (take t (a ∷ b ∷ c ∷ d ∷ suc k ∷ r)) ≡ some cmd) (sym cut) ok,
      omega arith,
    )
decode_frame (a ∷ b ∷ c ∷ d ∷ zero ∷ h ∷ l ∷ r) n e =
    let raw = a ∷ b ∷ c ∷ d ∷ zero ∷ h ∷ l ∷ r in
    let bounds = with_le_range (4 + 3 + (h * 256 + l)) raw n e in
    let cut : n ≡ suc (suc (suc (suc (suc (suc (suc (n - 7))))))) = omega arith in
    let (cmd, ok, size, _) = extended_body a b c d h l (n - 7) r (omega arith) (omega arith) in
    (cmd, subst (λ t. decode (take t raw) ≡ some cmd) (sym cut) ok, omega arith)
decode_frame (a ∷ b ∷ c ∷ d ∷ zero ∷ h ∷ []) n e = absurd (cc)
decode_frame (a ∷ b ∷ c ∷ d ∷ zero ∷ []) n e = absurd (cc)
decode_frame (a ∷ b ∷ c ∷ []) n e = absurd (cc)
decode_frame (a ∷ b ∷ []) n e = absurd (cc)
decode_frame (a ∷ []) n e = absurd (cc)
decode_frame [] n e = absurd (cc)

-- What follows a frame on the stream: nothing, or a command with one of the known class bytes.
abbrev pub AtBoundary : Bytes → Type 0
AtBoundary [] = Unit {0}
AtBoundary (b ∷ bs) = is_cla b ≡ true

abbrev pub store_data : ℕ → ℕ → Bytes → ApduCommand
store_data p1 p2 payload = command 0x80 0xE2 p1 p2 payload none

pub build_store_data_lem :
    (p1 p2 : ℕ) (payload raw : Bytes)
    → build_store_data p1 p2 payload ≡ some raw
    → raw ≡ 0x80 ∷ 0xE2 ∷ p1 ∷ p2 ∷ length payload ∷ payload
unfolding build_store_data
build_store_data_lem p1 p2 payload raw h = ground arith

get_or-append : (xs ys : Bytes) (d : ℕ) → get_or (xs ++ ys) (length xs) d ≡ get_or ys 0 d
get_or-append [] ys d = refl
get_or-append (x ∷ xs) ys d = get_or-append xs ys d

boundary_le :
    (xs rest : Bytes) → AtBoundary rest → with_le (length xs) (xs ++ rest) ≡ some (length xs)
boundary_le xs [] h = let e = length-append xs [] in ground arith
boundary_le xs (b ∷ bs) h =
    let e = length-append xs (b ∷ bs) in rw (get_or-append xs (b ∷ bs) 0) (ground arith)

get_elem?-past : (xs : Bytes) (i : ℕ) → length xs ≤ i → get_elem? xs i ≡ none
get_elem?-past [] i h = refl
get_elem?-past (x ∷ xs) zero h = absurd (omega arith)
get_elem?-past (x ∷ xs) (suc i) h = get_elem?-past xs i (omega arith)

-- Round trip on the stream: a STORE DATA command with a non-empty payload, before any rest that
-- begins with a class byte, is framed at exactly its own length and decoded to its own parts.
pub frame-build_store_data :
    (p1 p2 : ℕ) (payload raw rest : Bytes)
    → build_store_data p1 p2 payload ≡ some raw
    → payload ≢ []
    → AtBoundary rest
    → (frame_size (raw ++ rest) ≡ some (length raw))
      × (decode raw ≡ some (store_data p1 p2 payload))
unfolding frame_size decode
frame-build_store_data p1 p2 [] raw rest h ne b = absurd (ne refl)
frame-build_store_data p1 p2 (x ∷ xs) raw rest h ne b =
    let body = suc (length xs) ∷ x ∷ xs in
    let full = 0x80 ∷ 0xE2 ∷ p1 ∷ p2 ∷ body in
    let size : 4 + 1 + suc (length xs) ≡ length full = omega arith in
    let end : get_elem? body (1 + suc (length xs)) ≡ none = get_elem?-past body _ (omega arith) in
    rw (build_store_data_lem p1 p2 (x ∷ xs) raw h) (
      subst (λ t. with_le t (full ++ rest) ≡ some (length full)) (sym size)
          (boundary_le full rest b),
      decode_data_complete (command 0x80 0xE2 p1 p2) 1 (suc (length xs)) body (omega arith)
          ∙ cc (end, take_all (length xs) xs (omega arith)),
    )
