-- ===== src/Transport/TcpServer.antt =====
-- `ApduConnectionHandler` of app/transport/tcp_server.py, and the reads of `_handle_client`. The
-- ES10 dispatcher is a parameter: it takes an EID, a command and the eUICC's state `S`, and gives
-- its outcome and the new state.
use euicc_simulator.Prelude.{
  Bool, true, false, not, ◌&&◌, ◌||◌, List, [], ◌∷◌, Bytes, Text, bytes_eq, starts_with, leb, ◌==◌,
  if◌then◌else◌, length,
}
use euicc_simulator.Prelude.Outcome.{Outcome, returned, raised}
use euicc_simulator.Transport.ApduCodec.{ApduCommand, encode_error, encode_response}
use euicc_simulator.Transport.TcpProtocol.{
  ApduSegmentBuffer, empty_segments, reset_segments, add_segment, get_complete, ApduFrameParser,
  new_parser, feed,
}
use euicc_simulator.Services.ApduHandler.{isdr_aid}

pub record ApduConnectionHandler : Type 0 where
  pub eid : Text
  pub frame_parser : ApduFrameParser
  pub segment_buffer : ApduSegmentBuffer
  pub isd_selected : Bool

abbrev pub new_handler : Text → ApduConnectionHandler
new_handler eid = record {
  eid = eid;
  frame_parser = new_parser;
  segment_buffer = empty_segments;
  isd_selected = false;
}

unfoldable pub handle_select : ApduCommand → ApduConnectionHandler → Bytes × ApduConnectionHandler
unfolding reset_segments
handle_select cmd h =
    if bytes_eq cmd.payload isdr_aid
      || (leb 8 (length cmd.payload) && starts_with isdr_aid cmd.payload)
    then (
      encode_response [] 0x9000,
      record h { isd_selected = true; segment_buffer = reset_segments h.segment_buffer },
    )
    else (encode_error 0x6A82, record h { isd_selected = false })

-- What the loop writes after one command, given what the rest of the loop does from the state that
-- the command leaves: an exception ends the loop.
abbrev pub write {ℓ} :
    {W : Type ℓ} → Outcome Bytes → W → (List Bytes × Bool) × W → (List Bytes × Bool) × W
write raised w' rest = (([], false), w')
write (returned response) w' ((responses, goes_on), w'') = ((response ∷ responses, goes_on), w'')

module _ {S : Type 0} (dispatch : Text → Bytes → S → Outcome Bytes × S) where
  unfoldable pub handle_store_data :
      ApduCommand → ApduConnectionHandler × S → Outcome Bytes × (ApduConnectionHandler × S)
  unfolding add_segment get_complete reset_segments
  handle_store_data cmd (h, s) =
      let ((complete, total_len), b) = add_segment cmd h.segment_buffer in
      let (response, s') = dispatch h.eid (get_complete b) s in
      if not h.isd_selected
      then (returned (encode_error 0x6985), (h, s))
      else if not complete
      then (returned (encode_response [] 0x9000), (record h { segment_buffer = b }, s))
      else (response, (record h { segment_buffer = reset_segments b }, s'))

  unfoldable pub handle_apdu :
      ApduCommand → ApduConnectionHandler × S → Outcome Bytes × (ApduConnectionHandler × S)
  unfolding handle_select handle_store_data
  handle_apdu cmd (h, s) =
      let (reply, h') = handle_select cmd h in
      if cmd.ins == 0xA4
      then (returned reply, (h', s))
      else if cmd.ins == 0xE2
      then handle_store_data cmd (h, s)
      else if cmd.ins == 0xCA
      then (returned (encode_error 0x6985), (h, s))
      else if cmd.ins == 0xC0
      then (returned (encode_error 0x6985), (h, s))
      else (returned (encode_error 0x6D00), (h, s))

  -- The `for` loop over the commands of one read: what it writes, and whether the connection goes on.
  -- An exception closes it.
  unfoldable pub handle_all :
      List ApduCommand
      → ApduConnectionHandler × S
      → (List Bytes × Bool) × (ApduConnectionHandler × S)
  unfolding handle_apdu
  handle_all [] w = (([], true), w)
  handle_all (cmd ∷ cmds) w =
      let (outcome, w') = handle_apdu cmd w in write outcome w' (handle_all cmds w')

  -- One read of the client loop.
  unfoldable pub handle_read :
      Bytes → ApduConnectionHandler × S → (List Bytes × Bool) × (ApduConnectionHandler × S)
  unfolding feed handle_all
  handle_read incoming (h, s) =
      let (cmds, p) = feed incoming h.frame_parser in
      handle_all cmds (record h { frame_parser = p }, s)
