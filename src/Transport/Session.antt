-- ===== src/Transport/Session.antt =====
-- app/transport/tcp_server.py: a command sent in segments reaches the dispatcher whole.
use euicc_simulator.Prelude.{
  Bool, ℕ, zero, suc, ◌+◌, ◌≤◌, ◌≡◌, refl, sym, ◌∙◌, true, false, some, List, [], ◌∷◌, ◌++◌,
  append_assoc, append-nil, map, Bytes, Text, arith, has_bit, ◌==◌, length,
}
use euicc_simulator.Prelude.Outcome.{Outcome, returned, raised}
use euicc_simulator.Transport.ApduCodec.{ApduCommand, is_last_block, encode_response}
use euicc_simulator.Transport.TcpProtocol.{
  ApduSegmentBuffer, empty_segments, reset_segments, add_segment, join, get_complete, feed,
}
use euicc_simulator.Transport.Stream.{Segment, command_of, stream, NonEmpty, feed-stream}
use euicc_simulator.Transport.TcpServer.{
  ApduConnectionHandler, handle_store_data, handle_apdu, write, handle_all, handle_read,
}

join_append : (xs ys : List Bytes) → join (xs ++ ys) ≡ join xs ++ join ys
unfolding join
join_append [] ys = refl
join_append (x ∷ xs) ys = rw (join_append xs ys) (sym (append_assoc x (join xs) (join ys)))

pub join_snoc : (xs : List Bytes) (y : Bytes) → join (xs ++ y ∷ []) ≡ join xs ++ y
join_snoc xs y = join_append xs (y ∷ []) ∙ unfold join in rw (append-nil y)

-- The segments of one command: block numbers from `n` on, and the last-block bit on the last alone.
abbrev pub Blocks : ℕ → List Segment → Type 0
Blocks n [] = suc n ≡ zero
Blocks n (g ∷ []) = (g.p2 ≡ n) × (has_bit g.p1 0x80 ≡ true)
Blocks n (g ∷ h ∷ gs) = (g.p2 ≡ n) × (has_bit g.p1 0x80 ≡ false) × Blocks (n + 1) (h ∷ gs)

-- What the client reads, and whether the connection goes on: an acknowledgement for each segment but
-- the last, then the response, or nothing more where the dispatcher raises.
abbrev pub replies : List Segment → Outcome Bytes → List Bytes × Bool
replies [] outcome = ([], true)
replies (g ∷ []) raised = ([], false)
replies (g ∷ []) (returned response) = (response ∷ [], true)
replies (g ∷ h ∷ gs) outcome =
    let (rest, goes_on) = replies (h ∷ gs) outcome in (encode_response [] 0x9000 ∷ rest, goes_on)

write_last {ℓ} :
    {W : Type ℓ} (g : Segment) (o : Outcome Bytes) (w : W)
    → write o w (([], true), w) ≡ (replies (g ∷ []) o, w)
write_last g raised w = refl
write_last g (returned r) w = refl

abbrev pub content : List Segment → Bytes
content [] = []
content (g ∷ gs) = g.payload ++ content gs

module _ {S : Type 0} (dispatch : Text → Bytes → S → Outcome Bytes × S) where
  -- A last segment in its place.
  handle_last :
      (h : ApduConnectionHandler) (s : S) (g : Segment)
      → h.isd_selected ≡ true
      → g.p2 ≡ h.segment_buffer.expected_block
      → has_bit g.p1 0x80 ≡ true
      → handle_apdu dispatch (command_of g) (h, s) ≡ (
          let (r, s') = dispatch h.eid (join h.segment_buffer.segments ++ g.payload) s in
          (r, (record h { segment_buffer = empty_segments }, s')))
  unfolding handle_apdu handle_store_data add_segment get_complete reset_segments is_last_block join
  handle_last h s g sel here last =
      let same : (g.p2 == h.segment_buffer.expected_block) ≡ true = ground arith in
      rw (sel, same, last, join_snoc h.segment_buffer.segments g.payload)

  handle_middle :
      (h : ApduConnectionHandler) (s : S) (g : Segment)
      → h.isd_selected ≡ true
      → g.p2 ≡ h.segment_buffer.expected_block
      → has_bit g.p1 0x80 ≡ false
      → handle_apdu dispatch (command_of g) (h, s) ≡ (
        returned (encode_response [] 0x9000),
        (
          record h {
            segment_buffer = record {
              segments = h.segment_buffer.segments ++ g.payload ∷ [];
              expected_block = h.segment_buffer.expected_block + 1;
            };
          },
          s,
        ),
      )
  unfolding handle_apdu handle_store_data add_segment is_last_block
  handle_middle h s g sel here more =
      let same : (g.p2 == h.segment_buffer.expected_block) ≡ true = ground arith in
      rw (sel, same, more)

  handle_all_cons :
      (cmd : ApduCommand) (cmds : List ApduCommand) (w : ApduConnectionHandler × S)
      → handle_all dispatch (cmd ∷ cmds) w
        ≡ (let (r, w') = handle_apdu dispatch cmd w in write r w' (handle_all dispatch cmds w'))
  unfolding handle_all
  handle_all_cons cmd cmds w = refl

  handle_all_nil : (w : ApduConnectionHandler × S) → handle_all dispatch [] w ≡ (([], true), w)
  unfolding handle_all
  handle_all_nil w = refl

  -- From a buffer that holds some blocks of a command, the command's other segments complete it.
  handle_all-segments :
      (gs : List Segment) (h : ApduConnectionHandler) (s : S)
      → h.isd_selected ≡ true
      → Blocks h.segment_buffer.expected_block gs
      → handle_all dispatch (map command_of gs) (h, s) ≡ (
          let (r, s') = dispatch h.eid (join h.segment_buffer.segments ++ content gs) s in
          (replies gs r, (record h { segment_buffer = empty_segments }, s')))
  handle_all-segments [] h s sel b = absurd (omega arith)
  handle_all-segments (g ∷ []) h s sel b =
      let (o, s') = dispatch h.eid (join h.segment_buffer.segments ++ g.payload) s in
      handle_all_cons (command_of g) [] (h, s)
      ∙ rw (handle_last h s g sel b.0 b.1, handle_all_nil, append-nil g.payload)
          (write_last g o (record h { segment_buffer = empty_segments }, s'))
  handle_all-segments (g ∷ k ∷ gs) h s sel b =
      let kept : ApduSegmentBuffer = record {
        segments = h.segment_buffer.segments ++ g.payload ∷ [];
        expected_block = h.segment_buffer.expected_block + 1;
      } in
      let rest : join kept.segments ++ content (k ∷ gs)
          ≡ join h.segment_buffer.segments ++ content (g ∷ k ∷ gs) =
        rw (join_snoc h.segment_buffer.segments g.payload)
          (append_assoc (join h.segment_buffer.segments) g.payload (content (k ∷ gs))) in
      handle_all_cons (command_of g) (map command_of (k ∷ gs)) (h, s)
      ∙ rw (
        handle_middle h s g sel b.0 b.1,
        handle_all-segments (k ∷ gs) (record h { segment_buffer = kept }) s sel b.2,
        rest,
      )

  -- A command sent in segments and read at once, once the ISD-R is selected: each segment but the
  -- last is acknowledged, the dispatcher gets the joined data, its response comes last (where it raises,
  -- the connection ends), and both buffers are left empty. The segments are non-empty and numbered from zero, only the last has
  -- the last-block bit, and the bytes fit in the frame buffer.
  pub handle_read-stream :
      (gs : List Segment) (bytes : Bytes) (h : ApduConnectionHandler) (s : S)
      → stream gs ≡ some bytes
      → NonEmpty gs
      → Blocks 0 gs
      → h.isd_selected ≡ true
      → h.segment_buffer ≡ empty_segments
      → h.frame_parser.buffer ≡ []
      → length bytes ≤ h.frame_parser.max_buffer
      → let (responses, (h', t)) = handle_read dispatch bytes (h, s) in
        let (r, s') = dispatch h.eid (content gs) s in
        (responses ≡ replies gs r)
        × (t ≡ s')
        × (h'.segment_buffer ≡ empty_segments)
        × (h'.frame_parser.buffer ≡ [])
  unfolding handle_read
  handle_read-stream gs bytes h s made ne blocks sel fresh idle fits =
      let (frames, left) = feed-stream gs bytes h.frame_parser made ne idle fits in
      let h1 : ApduConnectionHandler = record h { frame_parser = (feed bytes h.frame_parser).1 } in
      let b : Blocks h.segment_buffer.expected_block gs = rw fresh blocks in
      rw (frames, handle_all-segments gs h1 s sel b, fresh) (refl, refl, refl, left)
