-- ===== src/Transport/Stream.antt =====
-- `ApduFrameParser.feed` of app/transport/tcp_protocol.py on whole streams.
use euicc_simulator.Prelude.{
  ℕ, zero, suc, ◌+◌, ◌*◌, ◌≤◌, ◌≡◌, ◌≢◌, refl, ap, ◌∙◌, false, ◌||◌, Option, none, some, List, [],
  ◌∷◌, ◌++◌, map, inl, inr, Bytes, arith, ltb, ◌==◌, length, length-append, length-drop, take,
  take-append, drop, drop-append, Option-cases,
}
use euicc_simulator.Transport.ApduCodec.{ApduCommand, command, frame_size, decode, build_store_data}
use euicc_simulator.Transport.Frames.{
  frame_size_bounds, decode_frame, AtBoundary, store_data, build_store_data_lem,
  frame-build_store_data,
}
use euicc_simulator.Transport.TcpProtocol.{ApduFrameParser, push, extract, feed}

-- One round of the loop on a buffer that begins with a frame.
extract_step :
    (fuel : ℕ) (buffer : Bytes) (n : ℕ)
    → frame_size buffer ≡ some n
    → extract (suc fuel) buffer ≡ (
        let (frames, rest) = extract fuel (drop n buffer) in
        (push (decode (take n buffer)) frames, rest))
unfolding extract
extract_step fuel buffer n e =
    let b = frame_size_bounds buffer n e in
    let go : (n == 0 || ltb (length buffer) n) ≡ false = ground arith in rw (e, extract, go)

extract_stop :
    (fuel : ℕ) (buffer : Bytes) → frame_size buffer ≡ none → extract fuel buffer ≡ ([], buffer)
unfolding extract
extract_stop zero buffer e = refl
extract_stop (suc fuel) buffer e = rw (e, extract)

-- With as much fuel as the buffer is long the loop ends by its own test, and each command took four
-- bytes at least.
extract_exhausts :
    (fuel : ℕ) (buffer : Bytes)
    → length buffer ≤ fuel
    → let (frames, rest) = extract fuel buffer in
      (frame_size rest ≡ none) × (length rest + 4 * length frames ≤ length buffer)
unfolding extract
extract_exhausts zero [] h = unfold frame_size in (refl, omega arith)
extract_exhausts zero (x ∷ xs) h = absurd (omega arith)
extract_exhausts (suc fuel) buffer h = elim (Option-cases (frame_size buffer)) [
  | inl e ↦ rw (extract_stop (suc fuel) buffer e) (e, omega arith)
  | inr (n, e) ↦
      let b = frame_size_bounds buffer n e in
      let shorter = length-drop n buffer in
      let (cmd, ok, _) = decode_frame buffer n e in
      let (done, size) = extract_exhausts fuel (drop n buffer) (omega arith) in
      rw (extract_step fuel buffer n e, ok) (done, omega arith)
]

-- Below the limit, `feed` leaves a buffer with no complete frame in it, and what it returns and
-- leaves fits in what it was given: four bytes at least for each command.
pub feed_exhausts :
    (incoming : Bytes) (p : ApduFrameParser)
    → length (p.buffer ++ incoming) ≤ p.max_buffer
    → let (frames, p') = feed incoming p in
      (frame_size p'.buffer ≡ none)
      × (length p'.buffer + 4 * length frames ≤ length (p.buffer ++ incoming))
unfolding feed
feed_exhausts incoming p h =
    let buffer = p.buffer ++ incoming in
    let fits : ltb p.max_buffer (length buffer) ≡ false = ground arith in
    rw fits (extract_exhausts (length buffer) buffer (omega arith))

-- What a client sends: STORE DATA commands, one behind another.
pub record Segment : Type 0 where
  pub p1 : ℕ
  pub p2 : ℕ
  pub payload : Bytes

abbrev pub command_of : Segment → ApduCommand
command_of g = store_data g.p1 g.p2 g.payload

abbrev joined : Option Bytes → Option Bytes → Option Bytes
joined none rest = none
joined (some raw) none = none
joined (some raw) (some rest) = some (raw ++ rest)

abbrev pub stream : List Segment → Option Bytes
stream [] = some []
stream (g ∷ gs) = joined (build_store_data g.p1 g.p2 g.payload) (stream gs)

abbrev pub NonEmpty : List Segment → Type 0
NonEmpty [] = Unit {0}
NonEmpty (g ∷ gs) = (g.payload ≢ []) × NonEmpty gs

stream-cons :
    (g : Segment) (gs : List Segment) (bytes : Bytes)
    → stream (g ∷ gs) ≡ some bytes
    → (raw : Bytes) × (rest : Bytes) × (build_store_data g.p1 g.p2 g.payload ≡ some raw)
      × (stream gs ≡ some rest)
      × (bytes ≡ raw ++ rest)
stream-cons g gs bytes h = ground arith

stream-AtBoundary : (gs : List Segment) (bytes : Bytes) → stream gs ≡ some bytes → AtBoundary bytes
stream-AtBoundary [] bytes h = let e : bytes ≡ [] = ground arith in rw e tt
stream-AtBoundary (g ∷ gs) bytes h =
    let (raw, rest, built, _, whole) = stream-cons g gs bytes h in
    let shape = build_store_data_lem g.p1 g.p2 g.payload raw built in rw (whole, shape) refl

extract-stream :
    (gs : List Segment) (bytes : Bytes) (fuel : ℕ)
    → stream gs ≡ some bytes
    → NonEmpty gs
    → length bytes ≤ fuel
    → extract fuel bytes ≡ (map command_of gs, [])
extract-stream [] bytes fuel h ne l =
    let e : bytes ≡ [] = ground arith in rw e (extract_stop fuel [] (unfold frame_size in refl))
extract-stream (g ∷ gs) bytes zero h ne l =
    let (raw, rest, built, _, whole) = stream-cons g gs bytes h in
    let shape = build_store_data_lem g.p1 g.p2 g.payload raw built in
    absurd (omega (arith, ap length whole, ap length shape, length-append raw rest))
extract-stream (g ∷ gs) bytes (suc fuel) h ne l =
    let (raw, rest, built, others, whole) = stream-cons g gs bytes h in
    let shape = build_store_data_lem g.p1 g.p2 g.payload raw built in
    let (size, parts) =
      frame-build_store_data g.p1 g.p2 g.payload raw rest built ne.0
        (stream-AtBoundary gs rest others) in
    let tail =
      extract-stream gs rest fuel others ne.1
        (omega (arith, ap length whole, ap length shape, length-append raw rest)) in
    rw whole (
      extract_step fuel (raw ++ rest) (length raw) size
      ∙ rw (take-append raw rest, drop-append raw rest, parts, tail))

-- STORE DATA commands with non-empty data, sent back to back and read at once into an empty buffer
-- that they fit in, come out as they were sent, in their order, and leave the buffer empty.
pub feed-stream :
    (gs : List Segment) (bytes : Bytes) (p : ApduFrameParser)
    → stream gs ≡ some bytes
    → NonEmpty gs
    → p.buffer ≡ []
    → length bytes ≤ p.max_buffer
    → let (frames, p') = feed bytes p in (frames ≡ map command_of gs) × (p'.buffer ≡ [])
unfolding feed
feed-stream gs bytes p h ne empty l =
    let fits : ltb p.max_buffer (length bytes) ≡ false = ground arith in
    rw (empty, fits, extract-stream gs bytes (length bytes) h ne (omega arith)) (refl, refl)

-- A command whose four header bytes arrive in a read of their own is cut there: it is returned at
-- once, with no payload and no Le.
pub feed_header_alone :
    (cla ins p1 p2 : ℕ) (p : ApduFrameParser)
    → p.buffer ≡ []
    → 4 ≤ p.max_buffer
    → let (frames, p') = feed (cla ∷ ins ∷ p1 ∷ p2 ∷ []) p in
      (frames ≡ command cla ins p1 p2 [] none ∷ []) × (p'.buffer ≡ [])
unfolding feed extract frame_size decode
feed_header_alone cla ins p1 p2 p empty l =
    let fits : ltb p.max_buffer 4 ≡ false = ground arith in rw (empty, fits) (refl, refl)
