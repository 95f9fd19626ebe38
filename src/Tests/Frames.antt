-- ===== src/Tests/Frames.antt =====
-- app/transport at concrete inputs.
use euicc_simulator.Prelude.{
  ◌+◌, ◌*◌, ◌≤◌, ◌≡◌, refl, none, List, [], ◌∷◌, ◌++◌, map, Bytes, arith, length,
}
use euicc_simulator.Transport.ApduCodec.{command, frame_size, build_store_data}
use euicc_simulator.Transport.TcpProtocol.{new_parser, feed}
use euicc_simulator.Transport.Stream.{
  Segment, command_of, feed_exhausts, feed-stream, feed_header_alone,
}

-- The frame of tests/test_tcp_protocol.py.
abbrev get_eid_frame : Bytes
get_eid_frame = 0x80 ∷ 0xE2 ∷ 0x91 ∷ 0 ∷ 4 ∷ 0xBF ∷ 0x3E ∷ 0 ∷ 0 ∷ []

feed_exhausts_example :
    let (frames, p') = feed (get_eid_frame ++ (0x80 ∷ [])) new_parser in
    (frame_size p'.buffer ≡ none) × (length p'.buffer + 4 * length frames ≤ 10)
feed_exhausts_example = feed_exhausts (get_eid_frame ++ (0x80 ∷ [])) new_parser (omega arith)

abbrev two : List Segment
two =
    record { p1 = 0x11; p2 = 0; payload = 1 ∷ 2 ∷ [] }
    ∷ record { p1 = 0x91; p2 = 1; payload = 3 ∷ [] }
    ∷ []

abbrev two_bytes : Bytes
two_bytes = 0x80 ∷ 0xE2 ∷ 0x11 ∷ 0 ∷ 2 ∷ 1 ∷ 2 ∷ 0x80 ∷ 0xE2 ∷ 0x91 ∷ 1 ∷ 1 ∷ 3 ∷ []

feed-stream_example :
    let (frames, p') = feed two_bytes new_parser in (frames ≡ map command_of two) × (p'.buffer ≡ [])
unfolding build_store_data
feed-stream_example =
    feed-stream two two_bytes new_parser refl ((λ e. cc e), ((λ e. cc e), tt)) refl (omega arith)

feed_header_alone_example :
    let (frames, p') = feed (0x80 ∷ 0xE2 ∷ 0x91 ∷ 0 ∷ []) new_parser in
    (frames ≡ command 0x80 0xE2 0x91 0 [] none ∷ []) × (p'.buffer ≡ [])
feed_header_alone_example = feed_header_alone 0x80 0xE2 0x91 0 new_parser refl (omega arith)
