-- ===== src/Tests/Server.antt =====
-- The server of app/transport/tcp_server.py and app/main.py, and the two ways to an eUICC, at concrete
-- inputs.
use euicc_simulator.Prelude.{
  ℕ, ◌≡◌, refl, Bool, true, Option, some, List, [], ◌∷◌, Bytes, Text, codes, arith, bytes_eq, take,
  fromhex, hex_value,
}
use euicc_simulator.Prelude.Outcome.{Outcome}
use euicc_simulator.Euicc.{new_euicc, allocate_isdp_aid}
use euicc_simulator.Euicc.Valid.{IsValid}
use euicc_simulator.Es10b.Engine.{Engine}
use euicc_simulator.Services.ApduHandler.{isdr_aid, cleared}
use euicc_simulator.Dispatcher.Routes.{Draws, dispatch}
use euicc_simulator.Manager.{
  EuiccInstance, get_euicc, new_instance, preloaded_slot, preload, bcd_pairs, string_to_bcd_iccid,
  create_euicc, create_test_euiccs,
}
use euicc_simulator.Manager.Created.{InstancesAreValid}
use euicc_simulator.Database.{DbEuicc, Database, persist_all, load_row, load_persisted_euiccs}
use euicc_simulator.Database.Saved.{saved}
use euicc_simulator.Transport.ApduCodec.{build_store_data}
use euicc_simulator.Transport.TcpProtocol.{new_parser, empty_segments}
use euicc_simulator.Transport.TcpServer.{ApduConnectionHandler, new_handler, handle_read}
use euicc_simulator.Transport.Stream.{Segment}
use euicc_simulator.Transport.Session.{replies}
use euicc_simulator.App.{shutdown, setup_euiccs, startup}
use euicc_simulator.App.Server.{
  ApduTcpServer, Event, connect, receive, debug, open_session, turn, start, run, handle_client,
}
use euicc_simulator.App.Server.Isolation.{turn_other}
use euicc_simulator.App.Lifecycle.{
  lifespan, run_from_start, run_from_start-IsValid, shutdown-IsValid,
}
use euicc_simulator.App.Ports.{connect_reaches}
use euicc_simulator.App.Paths.{debug_each, http_replies, debug_each-handle_read}
use euicc_simulator.Tests.Tables.{tables}
use euicc_simulator.Tests.Download.{engine}
use euicc_simulator.Tests.Dispatch.{codec, drawn}

abbrev with_engine : Text → Option Engine
with_engine eid = some engine

abbrev draws : ℕ → Draws
draws call = drawn

abbrev no_rows : Database tables
no_rows = ([], [], [])

abbrev third_eid : Text
third_eid = codes "89049032123451234512345678901237"

-- A client of the third eUICC, a request to the first, and one that opens a session on the second.
abbrev events : List Event
events =
    connect 1 9002
    ∷ receive 1 (0x80 ∷ 0xE2 ∷ 0x91 ∷ 0 ∷ 3 ∷ 0xBF ∷ 0x2E ∷ 0 ∷ [])
    ∷ open_session (codes "89049032123451234512345678901236")
    ∷ debug (codes "89049032123451234512345678901235") (codes "80E2910003BF2E00")
    ∷ []

abbrev can_listen : ℕ → Bool
can_listen port = true

run_from_start-IsValid_example :
    InstancesAreValid
      (run_from_start tables with_engine codec draws 9000
        (some no_rows)
        can_listen
        events).app.instances
run_from_start-IsValid_example =
    run_from_start-IsValid tables with_engine codec draws 9000 (some no_rows) can_listen events tt

abbrev begun : ApduTcpServer
begun = (lifespan tables with_engine 9000 (some no_rows) can_listen).1

turn_other_example :
    get_euicc third_eid
      (turn codec draws
        (open_session (codes "89049032123451234512345678901236"))
        begun).app.instances
    ≡ get_euicc third_eid begun.app.instances
unfolding bytes_eq
turn_other_example =
    turn_other codec draws (open_session (codes "89049032123451234512345678901236")) begun third_eid
      refl

-- At the end of a run in which a client connected to the first eUICC's port.
abbrev ended : ApduTcpServer
ended =
    run_from_start tables with_engine codec draws 9000 (some no_rows) can_listen
      (connect 1 9000 ∷ [])

abbrev third : EuiccInstance
third =
    new_instance
      (record (new_euicc third_eid) { default_smdp_address = codes "smdpplus.connectxiot.com" })
      engine

abbrev written : Database tables
written = persist_all tables ended.app.instances no_rows

shutdown-IsValid_example :
    (shutdown with_engine tables ended.app (some no_rows) ≡ some written)
    × (r : DbEuicc) × (tables.first third_eid written.0 ≡ some r)
    × (load_row tables r written ≡ some (saved third_eid third.euicc))
    × IsValid (saved third_eid third.euicc)
unfolding setup_euiccs create_test_euiccs create_euicc get_euicc preload preloaded_slot
    string_to_bcd_iccid bcd_pairs allocate_isdp_aid hex_value bytes_eq new_euicc fromhex run
    lifespan startup load_persisted_euiccs start turn handle_client
shutdown-IsValid_example =
    shutdown-IsValid tables with_engine codec draws 9000 no_rows written can_listen
      (connect 1 9000 ∷ []) third_eid third tt refl refl

abbrev open_handler : ApduConnectionHandler
open_handler = record {
  eid = third_eid;
  frame_parser = new_parser;
  segment_buffer = empty_segments;
  isd_selected = true;
}

abbrev selected : EuiccInstance
selected = record third {
  apdu = record { selected_aid = some isdr_aid; logical_channel = 0; segment_buffer = cleared };
}

-- GetEuiccChallenge in two segments.
abbrev segments : List Segment
segments =
    record { p1 = 0x11; p2 = 0; payload = 0xBF ∷ 0x2E ∷ [] }
    ∷ record { p1 = 0x91; p2 = 1; payload = 0 ∷ [] }
    ∷ []

abbrev sent : Bytes
sent = 0x80 ∷ 0xE2 ∷ 0x11 ∷ 0 ∷ 2 ∷ 0xBF ∷ 0x2E ∷ 0x80 ∷ 0xE2 ∷ 0x91 ∷ 1 ∷ 1 ∷ 0 ∷ []

debug_each-handle_read_example :
    let (responses, (h', t)) =
      handle_read (dispatch codec engine drawn) sent (open_handler, third.euicc) in
    let (answers, i') = debug_each codec drawn third_eid segments selected in
    (i'.euicc ≡ t)
    × ((r : Outcome Bytes) × (responses ≡ replies segments r) × (answers ≡ http_replies segments r))
unfolding build_store_data
debug_each-handle_read_example =
    debug_each-handle_read codec drawn third_eid segments sent open_handler selected refl
      ((λ e. cc e), ((λ e. cc e), tt)) (refl, refl, (refl, refl)) refl refl refl (omega arith) refl
      refl refl

connect_reaches_example : (handle_client 7 9002 begun).clients ≡ (7, new_handler third_eid) ∷ []
unfolding setup_euiccs create_test_euiccs create_euicc get_euicc preload preloaded_slot
    string_to_bcd_iccid bcd_pairs allocate_isdp_aid hex_value bytes_eq new_euicc fromhex lifespan
    startup load_persisted_euiccs start
connect_reaches_example =
    connect_reaches with_engine tables 9000 (some no_rows) can_listen true
      (take 2 begun.app.instances) third_eid third [] 7 refl refl
