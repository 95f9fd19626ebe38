-- ===== src/Transport/TcpProtocol.antt =====
-- app/transport/tcp_protocol.py: frames out of a stream, and commands out of STORE DATA segments.
use euicc_simulator.Prelude.{
  ℕ, zero, suc, ◌+◌, Bool, true, false, not, ◌||◌, Option, none, some, List, [], ◌∷◌, ◌++◌, Bytes,
  ltb, ◌==◌, if◌then◌else◌, length, take, drop, sum_by,
}
use euicc_simulator.Transport.ApduCodec.{ApduCommand, is_last_block, frame_size, decode}

pub record ApduSegmentBuffer : Type 0 where
  pub segments : List Bytes
  pub expected_block : ℕ

abbrev pub empty_segments : ApduSegmentBuffer
empty_segments = record { segments = []; expected_block = 0 }

-- `reset`.
unfoldable pub reset_segments : ApduSegmentBuffer → ApduSegmentBuffer
reset_segments b = empty_segments

-- Returns whether the command is complete and its number of bytes.
unfoldable pub add_segment : ApduCommand → ApduSegmentBuffer → (Bool × ℕ) × ApduSegmentBuffer
unfolding reset_segments is_last_block
add_segment cmd b =
    let b' : ApduSegmentBuffer = record {
      segments = b.segments ++ cmd.payload ∷ [];
      expected_block = b.expected_block + 1;
    } in
    if not (cmd.p2 == b.expected_block)
    then ((false, 0), reset_segments b)
    else if is_last_block cmd
    then ((true, sum_by length b'.segments), b')
    else ((false, 0), b')

-- `b"".join(self.segments)`.
unfoldable pub join : List Bytes → Bytes
join [] = []
join (s ∷ ss) = s ++ join ss

unfoldable pub get_complete : ApduSegmentBuffer → Bytes
unfolding join
get_complete b = join b.segments

pub record ApduFrameParser : Type 0 where
  pub buffer : Bytes
  pub max_buffer : ℕ

abbrev pub new_parser : ApduFrameParser
new_parser = record { buffer = []; max_buffer = 65536 }

abbrev pub push : Option ApduCommand → List ApduCommand → List ApduCommand
push none frames = frames
push (some cmd) frames = cmd ∷ frames

-- The `while True` loop: the commands extracted and the buffer left. Fuel counts the rounds.
unfoldable pub extract : ℕ → Bytes → List ApduCommand × Bytes
extract zero buffer = ([], buffer)
extract (suc fuel) buffer = elim (frame_size buffer) [
  | none ↦ ([], buffer)
  | some size ↦
      let (frames, rest) = extract fuel (drop size buffer) in
      if size == 0 || ltb (length buffer) size
      then ([], buffer)
      else (push (decode (take size buffer)) frames, rest)
]

unfoldable pub feed : Bytes → ApduFrameParser → List ApduCommand × ApduFrameParser
unfolding extract
feed incoming p =
    let buffer = p.buffer ++ incoming in
    let (frames, rest) = extract (length buffer) buffer in
    if ltb p.max_buffer (length buffer)
    then ([], record p { buffer = [] })
    else (frames, record p { buffer = rest })

unfoldable pub reset_parser : ApduFrameParser → ApduFrameParser
reset_parser p = record p { buffer = [] }
