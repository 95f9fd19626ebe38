-- ===== src/Tests/Tlv.antt =====
-- app/services/apdu_handler.py, app/crypto/scp03t.py and app/transport/tcp_server.py at concrete
-- inputs.
use euicc_simulator.Prelude.{
  ℕ, ◌+◌, ◌≡◌, ◌≤◌, refl, inl, true, bytes_eq, some, List, [], ◌∷◌, ◌++◌, Bytes, Text, arith,
  length, take, drop, ◌-◌, replicate,
}
use euicc_simulator.Prelude.Outcome.{Outcome, returned}
use euicc_simulator.Crypto.Scp03t.{Ciphers, Scp03tProcessor, verify_and_decrypt}
use euicc_simulator.Crypto.Padding.{pad}
use euicc_simulator.Crypto.Channel.{moved, verify_and_decrypt_verified}
use euicc_simulator.Services.Tags.{command_name}
use euicc_simulator.Services.Tlv.{identify_command, build_tlv}
use euicc_simulator.Services.RoundTrip.{identify-build_tlv}
use euicc_simulator.Transport.ApduCodec.{build_store_data}
use euicc_simulator.Transport.Session.{replies, handle_read-stream}
use euicc_simulator.Transport.Stream.{Segment}
use euicc_simulator.Transport.TcpProtocol.{empty_segments, new_parser}
use euicc_simulator.Transport.TcpServer.{ApduConnectionHandler, handle_read}

identify-build_tlv_example :
    (tlv : Bytes) × (build_tlv 0xBF3E (0x5C ∷ 1 ∷ 0x5A ∷ []) ≡ some tlv)
    × ((rest : Bytes)
        → identify_command (tlv ++ rest) ≡ some (0xBF3E, command_name 0xBF3E, 0x5C ∷ 1 ∷ 0x5A ∷ []))
identify-build_tlv_example =
    identify-build_tlv 0xBF3E (0x5C ∷ 1 ∷ 0x5A ∷ []) (inl refl) (omega arith)

-- Ciphers that do nothing, with a MAC that is the message's first bytes.
abbrev plain_ciphers : Ciphers
plain_ciphers = record {
  cbc_decrypt = λ key iv message. some message;
  ecb_encrypt = λ key block. some block;
  cmac = λ key message. some (take 16 message);
}

abbrev channel : Scp03tProcessor
channel = record {
  session_keys = record { s_enc = []; s_mac = []; s_rmac = []; receipt_key = [] };
  mac_chaining_value = replicate 16 0;
  encryption_counter = 0;
}

abbrev block : Bytes
block = pad 0 (7 ∷ 8 ∷ []) ++ replicate 8 0

verify_and_decrypt_verified_example :
    (mac : Bytes) × (8 ≤ length block)
    × (plain_ciphers.cmac [] (replicate 16 0 ++ take (length block - 8) block) ≡ some mac)
    × (take 8 mac ≡ drop (length block - 8) block)
    × (moved channel (replicate 16 0) ≡ moved channel mac)
unfolding verify_and_decrypt bytes_eq
verify_and_decrypt_verified_example =
    verify_and_decrypt_verified plain_ciphers block (7 ∷ 8 ∷ []) channel
      (moved channel (replicate 16 0)) refl

abbrev open_handler : ApduConnectionHandler
open_handler = record {
  eid = [];
  frame_parser = new_parser;
  segment_buffer = empty_segments;
  isd_selected = true;
}

-- A dispatcher that counts the commands and sends back what it got.
abbrev counting : Text → Bytes → ℕ → Outcome Bytes × ℕ
counting eid command n = (returned (command ++ (0x90 ∷ 0 ∷ [])), n + 1)

abbrev segments : List Segment
segments =
    record { p1 = 0x11; p2 = 0; payload = 1 ∷ 2 ∷ [] }
    ∷ record { p1 = 0x91; p2 = 1; payload = 3 ∷ [] }
    ∷ []

abbrev sent : Bytes
sent = 0x80 ∷ 0xE2 ∷ 0x11 ∷ 0 ∷ 2 ∷ 1 ∷ 2 ∷ 0x80 ∷ 0xE2 ∷ 0x91 ∷ 1 ∷ 1 ∷ 3 ∷ []

handle_read-stream_example :
    let (responses, (h', t)) = handle_read counting sent (open_handler, 4) in
    (responses ≡ replies segments (returned (1 ∷ 2 ∷ 3 ∷ 0x90 ∷ 0 ∷ [])))
    × (t ≡ 5)
    × (h'.segment_buffer ≡ empty_segments)
    × (h'.frame_parser.buffer ≡ [])
unfolding build_store_data
handle_read-stream_example =
    handle_read-stream counting segments sent open_handler 4 refl ((λ e. cc e), ((λ e. cc e), tt))
      (refl, refl, (refl, refl)) refl refl refl (omega arith)
