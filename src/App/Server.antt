-- ===== src/App/Server.antt =====
-- `ApduTcpServer` of app/transport/tcp_server.py in the running application of app/main.py: its
-- ports, its clients, and the endpoints of HTTP that change an eUICC beside them. Between two awaits
-- nothing else runs, so that an event is one turn of a client's loop, or one request. Validity and
-- Isolation hold what any events do.
pub mod Validity
pub mod Isolation
use euicc_simulator.Prelude.{
  ℕ, ◌+◌, Bool, true, false, ◌&&◌, Option, none, some, List, [], ◌∷◌, ◌++◌, Bytes, Text, truthy,
  ◌==◌, if◌then◌else◌,
}
use euicc_simulator.Prelude.Outcome.{Outcome, returned, raised}
use euicc_simulator.Dispatcher.Codec.{Codec}
use euicc_simulator.Dispatcher.Routes.{Draws}
use euicc_simulator.Manager.{EuiccInstance, get_euicc, put_instance}
use euicc_simulator.Simulator.Serve.{Card, dispatch_next}
use euicc_simulator.Transport.TcpServer.{ApduConnectionHandler, new_handler, handle_read}
use euicc_simulator.App.{Application, member, apdu_debug}
use euicc_simulator.App.Endpoints.{es10_challenge}

-- The server with the application whose dispatchers it holds. A client is a number and the handler of
-- its connection; `calls` counts what has drawn at random.
pub record ApduTcpServer : Type 0 where
  pub app : Application
  pub servers : List ℕ
  pub running : Bool
  pub clients : List (ℕ × ApduConnectionHandler)
  pub calls : ℕ

-- `ApduTcpServer(…)`.
abbrev pub new_server : Application → ApduTcpServer
new_server app = record { app = app; servers = []; running = false; clients = []; calls = 0 }

-- The loop of `start`. Whether `asyncio.start_server` can listen on a port is a parameter; where it
-- cannot, its exception leaves the servers that are there.
abbrev pub listen_all : (ℕ → Bool) → List (ℕ × Text) → List ℕ → Outcome Bool × List ℕ
listen_all can_listen [] servers = (returned true, servers)
listen_all can_listen ((port, eid) ∷ rest) servers =
    let more = listen_all can_listen rest (servers ++ port ∷ []) in
    if can_listen port then more else (raised, servers)

unfoldable pub start : (ℕ → Bool) → ApduTcpServer → Outcome Bool × ApduTcpServer
start can_listen s =
    let (outcome, servers) = listen_all can_listen s.app.port_map s.servers in
    (outcome, record s { running = true; servers = servers })

unfoldable pub stop : ApduTcpServer → ApduTcpServer
stop s = record s { running = false; servers = [] }

-- `self.port_map[port]`.
abbrev pub eid_at : ℕ → List (ℕ × Text) → Option Text
eid_at port [] = none
eid_at port ((p, eid) ∷ rest) = if p == port then some eid else eid_at port rest

abbrev pub client : ℕ → List (ℕ × ApduConnectionHandler) → Option ApduConnectionHandler
client id [] = none
client id ((k, h) ∷ rest) = if k == id then some h else client id rest

abbrev pub close_client : ℕ → List (ℕ × ApduConnectionHandler) → List (ℕ × ApduConnectionHandler)
close_client id [] = []
close_client id ((k, h) ∷ rest) = if k == id then rest else (k, h) ∷ close_client id rest

abbrev pub put_client :
    ℕ → ApduConnectionHandler → List (ℕ × ApduConnectionHandler) → List (ℕ × ApduConnectionHandler)
put_client id h [] = []
put_client id h ((k, h') ∷ rest) = if k == id then (k, h) ∷ rest else (k, h') ∷ put_client id h rest

abbrev pub has_port : ℕ → List ℕ → Bool
has_port port [] = false
has_port port (p ∷ ps) = if p == port then true else has_port port ps

-- `_handle_client` up to its first read: without a dispatcher the connection is closed, and with the
-- server stopped its loop ends at once.
abbrev pub open_client : ℕ → Option Text → ApduTcpServer → ApduTcpServer
open_client id none s = s
open_client id (some eid) s =
    if member eid s.app.dispatchers && s.running
    then record s { clients = s.clients ++ (id, new_handler eid) ∷ [] }
    else s

unfoldable pub handle_client : ℕ → ℕ → ApduTcpServer → ApduTcpServer
handle_client id port s =
    if has_port port s.servers then open_client id (eid_at port s.app.port_map) s else s

-- A new connection with its number and port, a read of a client, the two requests by EID, and the end.
pub data Event : Type 0 where
  connect : ℕ → ℕ → Event
  receive : ℕ → Bytes → Event
  debug : Text → Text → Event
  open_session : Text → Event
  shut_down : Event

module _ (c : Codec) (draws : ℕ → Draws) where
  -- The eUICC behind a client's dispatcher after a read: what is written, and what is left of the loop.
  unfoldable pub serve_read :
      ℕ
      → Bytes
      → ApduConnectionHandler
      → Option EuiccInstance
      → ApduTcpServer
      → List Bytes × ApduTcpServer
  serve_read id incoming h none s = ([], s)
  serve_read id incoming h (some i) s =
      let ((responses, goes_on), (h', (euicc, calls))) =
        handle_read (dispatch_next c i.pki draws) incoming (h, (i.euicc, s.calls)) in
      (
        responses,
        record s {
          app = record s.app {
            instances = put_instance h.eid (record i { euicc = euicc }) s.app.instances;
          };
          calls = calls;
          clients =
              if goes_on && s.running
              then put_client id h' s.clients
              else close_client id s.clients;
        },
      )

  -- One turn of the loop of `_handle_client`; no bytes are the end of the connection.
  abbrev pub read_from :
      ℕ → Bytes → Option ApduConnectionHandler → ApduTcpServer → List Bytes × ApduTcpServer
  read_from id incoming none s = ([], s)
  read_from id incoming (some h) s =
      if truthy incoming
      then serve_read id incoming h (get_euicc h.eid s.app.instances) s
      else ([], record s { clients = close_client id s.clients })

  unfoldable pub turn : Event → ApduTcpServer → ApduTcpServer
  unfolding handle_client serve_read stop
  turn (connect id port) s = handle_client id port s
  turn (receive id incoming) s = (read_from id incoming (client id s.clients) s).1
  turn (debug eid apdu_hex) s =
      let (reply, app) = apdu_debug c (draws s.calls) eid apdu_hex s.app in
      record s { app = app; calls = s.calls + 1 }
  turn (open_session eid) s =
      let (reply, instances) = es10_challenge eid (draws s.calls).challenge s.app.instances in
      record s { app = record s.app { instances = instances }; calls = s.calls + 1 }
  turn shut_down s = stop s

  -- Any interleaving of the clients' reads and the requests.
  unfoldable pub run : List Event → ApduTcpServer → ApduTcpServer
  unfolding turn
  run [] s = s
  run (event ∷ events) s = run events (turn event s)
