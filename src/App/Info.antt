-- ===== src/App/Info.antt =====
-- The endpoints `health` and `info` of app/main.py: what a monitor reads of the server, and the ports
-- and eUICCs of a run.
use euicc_simulator.Prelude.{
  ℕ, zero, suc, ◌+◌, ◌≡◌, ◌∙◌, refl, sym, subst, Option, none, some, List, [], ◌∷◌, map, Bytes,
  Text, Bool, arith, codes, fromhex, length,
}
use euicc_simulator.Prelude.Outcome.{returned}
use euicc_simulator.Dispatcher.Codec.{Codec}
use euicc_simulator.Dispatcher.Routes.{Draws}
use euicc_simulator.Manager.{EuiccInstance, Instances, get_euicc, put_instance}
use euicc_simulator.Transport.TcpServer.{ApduConnectionHandler}
use euicc_simulator.Es10b.Engine.{Engine}
use euicc_simulator.Database.{Tables, Database}
use euicc_simulator.App.{Application, port_map_from, debug_on, apdu_debug}
use euicc_simulator.App.Endpoints.{found, with_challenge, get_instance, es10_challenge}
use euicc_simulator.App.Server.{
  ApduTcpServer, Event, connect, receive, debug, open_session, shut_down, client, serve_read,
  read_from, turn, run, stop,
}
use euicc_simulator.App.Lifecycle.{lifespan, run_from_start}
use euicc_simulator.App.Ports.{lifespan-HasPorts}
use euicc_simulator.App.Server.Validity.{handle_client-app}

abbrev pub health : Text
health = codes "ok"

pub record ServerInfo : Type 0 where
  pub name : Text
  pub version : Text
  pub euiccs : ℕ
  pub tcp_ports : List ℕ

abbrev port_of : ℕ × Text → ℕ
port_of (port, eid) = port

abbrev pub info_with : ℕ → List ℕ → ServerInfo
info_with euiccs tcp_ports = record {
  name = codes "GSMA eSIM Simulator";
  version = codes "0.1.0";
  euiccs = euiccs;
  tcp_ports = tcp_ports;
}

-- `none` is an application that is not set up.
unfoldable pub info : Option ApduTcpServer → ServerInfo
info none = info_with 0 []
info (some s) = info_with (length s.app.instances) (map port_of s.app.port_map)

length-put_instance :
    (eid : Text) (i : EuiccInstance) (m : Instances) → length (put_instance eid i m) ≡ length m
unfolding put_instance
length-put_instance eid i [] = refl
length-put_instance eid i ((key, j) ∷ m) = ground (arith, length-put_instance eid i m)

-- As many eUICCs and the same ports.
abbrev SameListing : Application → Application → Type 0
SameListing a b = (length b.instances ≡ length a.instances) × (b.port_map ≡ a.port_map)

debug_on-SameListing :
    (c : Codec) (drawn : Draws) (eid : Text) (o : Option EuiccInstance) (apdu : Option Bytes)
    (app : Application)
    → SameListing app (debug_on c drawn eid o apdu app).1
debug_on-SameListing c drawn eid none apdu app = (refl, refl)
debug_on-SameListing c drawn eid (some i) none app = (refl, refl)
debug_on-SameListing c drawn eid (some i) (some apdu) app =
    (length-put_instance eid _ app.instances, refl)

length-with_challenge :
    (eid : Text) (drawn : Bytes) (o : Option EuiccInstance) (m : Instances)
    → length (with_challenge eid drawn (found o) m).1 ≡ length m
length-with_challenge eid drawn none m = refl
length-with_challenge eid drawn (some i) m = length-put_instance eid _ m

module _ (c : Codec) (draws : ℕ → Draws) where
  serve_read-SameListing :
      (id : ℕ) (incoming : Bytes) (h : ApduConnectionHandler) (o : Option EuiccInstance)
      (s : ApduTcpServer)
      → SameListing s.app (serve_read c draws id incoming h o s).1.app
  unfolding serve_read
  serve_read-SameListing id incoming h none s = (refl, refl)
  serve_read-SameListing id incoming h (some i) s =
      (length-put_instance h.eid _ s.app.instances, refl)

  read_from-SameListing :
      (id : ℕ) (incoming : Bytes) (o : Option ApduConnectionHandler) (s : ApduTcpServer)
      → SameListing s.app (read_from c draws id incoming o s).1.app
  read_from-SameListing id incoming none s = (refl, refl)
  read_from-SameListing id [] (some h) s = (refl, refl)
  read_from-SameListing id (b ∷ bs) (some h) s =
      serve_read-SameListing id (b ∷ bs) h (get_euicc h.eid s.app.instances) s

  turn-SameListing :
      (event : Event) (s : ApduTcpServer) → SameListing s.app (turn c draws event s).app
  unfolding turn apdu_debug es10_challenge get_instance get_euicc stop
  turn-SameListing (connect id port) s =
      subst (SameListing s.app) (sym (handle_client-app id port s)) (refl, refl)
  turn-SameListing (receive id incoming) s =
      read_from-SameListing id incoming (client id s.clients) s
  turn-SameListing (debug eid apdu_hex) s =
      debug_on-SameListing c (draws s.calls) eid (get_euicc eid s.app.instances) (fromhex apdu_hex)
        s.app
  turn-SameListing (open_session eid) s = (
    length-with_challenge eid (draws s.calls).challenge (get_euicc eid s.app.instances)
        s.app.instances,
    refl,
  )
  turn-SameListing shut_down s = (refl, refl)

  turn-info :
      (event : Event) (s : ApduTcpServer) → info (some (turn c draws event s)) ≡ info (some s)
  unfolding info
  turn-info event s =
      let (as_many, same_ports) = turn-SameListing event s in rw (as_many, same_ports) refl

  -- Whatever the clients and the requests do, `info` tells the same eUICCs and ports.
  run-info :
      (events : List Event) (s : ApduTcpServer) → info (some (run c draws events s)) ≡ info (some s)
  unfolding run
  run-info [] s = refl
  run-info (event ∷ events) s = run-info events (turn c draws event s) ∙ turn-info event s

-- `n` ports one after another.
abbrev consecutive : ℕ → ℕ → ℕ → List ℕ
consecutive port offset zero = []
consecutive port offset (suc n) = (port + offset) ∷ consecutive port (offset + 1) n

port_map_from-consecutive :
    (port offset : ℕ) (m : Instances)
    → map port_of (port_map_from port offset m) ≡ consecutive port offset (length m)
port_map_from-consecutive port offset [] = refl
port_map_from-consecutive port offset ((key, i) ∷ m) =
    rw (port_map_from-consecutive port (offset + 1) m) refl

module _ (initialize : Text → Option Engine) (t : Tables) where
  -- After a start that ended well, whatever the clients and the requests do, `info` tells as many
  -- ports as eUICCs, one after another.
  run_from_start-info :
      (c : Codec) (draws : ℕ → Draws) (port : ℕ) (d : Option (Database t)) (can_listen : ℕ → Bool)
      (events : List Event) (ok : Bool)
      → (lifespan t initialize port d can_listen).0 ≡ returned ok
      → let told = info (some (run_from_start t initialize c draws port d can_listen events)) in
        told.tcp_ports ≡ consecutive port 0 told.euiccs
  unfolding info
  run_from_start-info c draws port d can_listen events ok started =
      subst (λ told. told.tcp_ports ≡ consecutive port 0 told.euiccs)
        (sym (run-info c draws events (lifespan t initialize port d can_listen).1))
        (rw (lifespan-HasPorts initialize t port d can_listen ok started)
          (port_map_from-consecutive port 0 _))
