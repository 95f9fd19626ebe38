-- ===== src/App/Server/Isolation.antt =====
-- The server of app/transport/tcp_server.py and app/main.py: what is sent to one eUICC does not reach
-- another.
use euicc_simulator.Prelude.{
  ℕ, ◌≡◌, refl, ap, false, Option, none, some, [], ◌∷◌, Bytes, Text, fromhex, bytes_eq,
}
use euicc_simulator.Es10b.Info.{get_euicc_challenge}
use euicc_simulator.Dispatcher.Codec.{Codec}
use euicc_simulator.Dispatcher.Routes.{Draws}
use euicc_simulator.Manager.{EuiccInstance, Instances, get_euicc}
use euicc_simulator.Manager.Entries.{get_euicc-put_instance_other}
use euicc_simulator.Transport.TcpServer.{ApduConnectionHandler}
use euicc_simulator.App.{Application, debug_instance, debug_on, apdu_debug}
use euicc_simulator.App.Endpoints.{found, with_challenge, get_instance, es10_challenge}
use euicc_simulator.App.Server.{
  ApduTcpServer, Event, connect, receive, debug, open_session, shut_down, client, serve_read,
  read_from, turn,
}
use euicc_simulator.App.Server.Validity.{handle_client-app}

-- The event is not for the eUICC of this EID: it is not the one of the client's port, nor the one that
-- the request names.
abbrev pub PassesBy : Text → Event → ApduTcpServer → Type 0
PassesBy other (connect id port) s = Unit {0}
PassesBy other (receive id incoming) s =
    (h : ApduConnectionHandler) → client id s.clients ≡ some h → bytes_eq h.eid other ≡ false
PassesBy other (debug eid apdu_hex) s = bytes_eq eid other ≡ false
PassesBy other (open_session eid) s = bytes_eq eid other ≡ false
PassesBy other shut_down s = Unit {0}

debug_on_other :
    (c : Codec) (drawn : Draws) (eid other : Text) (o : Option EuiccInstance) (apdu : Option Bytes)
    (app : Application)
    → bytes_eq eid other ≡ false
    → get_euicc other (debug_on c drawn eid o apdu app).1.instances ≡ get_euicc other app.instances
debug_on_other c drawn eid other none apdu app differ = refl
debug_on_other c drawn eid other (some i) none app differ = refl
debug_on_other c drawn eid other (some i) (some apdu) app differ =
    get_euicc-put_instance_other eid other (debug_instance c drawn eid apdu i).1 app.instances
      differ

with_challenge_other :
    (eid other : Text) (drawn : Bytes) (o : Option EuiccInstance) (m : Instances)
    → bytes_eq eid other ≡ false
    → get_euicc other (with_challenge eid drawn (found o) m).1 ≡ get_euicc other m
with_challenge_other eid other drawn none m differ = refl
with_challenge_other eid other drawn (some i) m differ =
    get_euicc-put_instance_other eid other
      (record i { euicc = (get_euicc_challenge drawn i.euicc).1 }) m differ

module _ (c : Codec) (draws : ℕ → Draws) where
  serve_read_other :
      (id : ℕ) (incoming : Bytes) (h : ApduConnectionHandler) (o : Option EuiccInstance)
      (s : ApduTcpServer) (other : Text)
      → bytes_eq h.eid other ≡ false
      → get_euicc other (serve_read c draws id incoming h o s).1.app.instances
        ≡ get_euicc other s.app.instances
  unfolding serve_read
  serve_read_other id incoming h none s other differ = refl
  serve_read_other id incoming h (some i) s other differ =
      get_euicc-put_instance_other h.eid other _ s.app.instances differ

  read_from_other :
      (id : ℕ) (incoming : Bytes) (o : Option ApduConnectionHandler) (s : ApduTcpServer)
      (other : Text)
      → ((h : ApduConnectionHandler) → o ≡ some h → bytes_eq h.eid other ≡ false)
      → get_euicc other (read_from c draws id incoming o s).1.app.instances
        ≡ get_euicc other s.app.instances
  read_from_other id incoming none s other differ = refl
  read_from_other id [] (some h) s other differ = refl
  read_from_other id (b ∷ bs) (some h) s other differ =
      serve_read_other id (b ∷ bs) h (get_euicc h.eid s.app.instances) s other (differ h refl)

  -- An event that is not for the eUICC of an EID, whatever bytes or request it carries, leaves that
  -- eUICC, its keys and its APDU processor as they were.
  pub turn_other :
      (event : Event) (s : ApduTcpServer) (other : Text)
      → PassesBy other event s
      → get_euicc other (turn c draws event s).app.instances ≡ get_euicc other s.app.instances
  unfolding turn apdu_debug es10_challenge get_instance get_euicc
  turn_other (connect id port) s other by =
      ap (λ app. get_euicc other app.instances) (handle_client-app id port s)
  turn_other (receive id incoming) s other by =
      read_from_other id incoming (client id s.clients) s other by
  turn_other (debug eid apdu_hex) s other by =
      debug_on_other c (draws s.calls) eid other (get_euicc eid s.app.instances) (fromhex apdu_hex)
        s.app by
  turn_other (open_session eid) s other by =
      with_challenge_other eid other (draws s.calls).challenge (get_euicc eid s.app.instances)
        s.app.instances by
  turn_other shut_down s other by = refl
