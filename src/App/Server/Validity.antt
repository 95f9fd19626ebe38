-- ===== src/App/Server/Validity.antt =====
-- The server of app/transport/tcp_server.py and app/main.py: every eUICC stays well-formed, whatever
-- the clients and the requests do.
use euicc_simulator.Prelude.{
  arith, ℕ, ◌≡◌, inl, inr, refl, sym, subst, Option, none, some, List, [], ◌∷◌, Bytes, Text,
  fromhex, Bool-cases, take, length, ◌-◌,
}
use euicc_simulator.Euicc.{EuiccState}
use euicc_simulator.Euicc.Valid.{IsValid-with_session}
use euicc_simulator.Es10b.Engine.{Engine}
use euicc_simulator.Es10b.Info.{get_euicc_challenge}
use euicc_simulator.Es10b.Sessions.{Vouched, get_euicc_challenge-SessionIsValid}
use euicc_simulator.Services.ApduHandler.{process_apdu}
use euicc_simulator.Dispatcher.Codec.{Codec}
use euicc_simulator.Dispatcher.Routes.{Draws, dispatch}
use euicc_simulator.Dispatcher.Refines.{Steps, dispatch-Steps}
use euicc_simulator.Manager.{EuiccInstance, Instances, get_euicc, put_instance}
use euicc_simulator.Manager.Created.{StateIsValid, InstanceIsValid, InstancesAreValid}
use euicc_simulator.Manager.Entries.{Every-get, Every-put_instance, DistinctKeys-put_instance}
use euicc_simulator.Simulator.Validity.{perform-IsValid}
use euicc_simulator.Simulator.Authenticity.{perform-SessionIsValid}
use euicc_simulator.Simulator.Serve.{Card, dispatch_next}
use euicc_simulator.Transport.TcpServer.{ApduConnectionHandler}
use euicc_simulator.Transport.Serving.{handle_read_keeps}
use euicc_simulator.App.{Application, is_es10, debug_instance, debug_on, apdu_debug}
use euicc_simulator.App.Endpoints.{found, with_challenge, get_instance, es10_challenge}
use euicc_simulator.App.Server.{
  ApduTcpServer, Event, connect, receive, debug, open_session, shut_down, client, open_client,
  handle_client, serve_read, read_from, turn, run, eid_at,
}

Steps-StateIsValid :
    (e : Engine) (s t : EuiccState) → Steps e s t → StateIsValid e s → StateIsValid e t
Steps-StateIsValid e s t (inl same) v = subst (StateIsValid e) (sym same) v
Steps-StateIsValid e s t (inr (cmd, next)) (v, w) =
    subst (StateIsValid e) (sym next)
      (perform-IsValid e cmd s v, perform-SessionIsValid e (Vouched e) (λ key v. v) cmd s w)

pub InstancesAreValid-put_instance :
    (eid : Text) (i : EuiccInstance) (m : Instances)
    → InstanceIsValid i
    → InstancesAreValid m
    → InstancesAreValid (put_instance eid i m)
InstancesAreValid-put_instance eid i m p (v, d) =
    (Every-put_instance InstanceIsValid eid i m p v, DistinctKeys-put_instance eid i m d)

module _ (c : Codec) where
  dispatch-StateIsValid :
      (e : Engine) (drawn : Draws) (eid : Text) (command : Bytes) (s : EuiccState)
      → StateIsValid e s
      → StateIsValid e (dispatch c e drawn eid command s).1
  dispatch-StateIsValid e drawn eid command s v =
      Steps-StateIsValid e s _ (dispatch-Steps c e drawn eid command s) v

  debug_instance-IsValid :
      (drawn : Draws) (eid : Text) (apdu : Bytes) (i : EuiccInstance)
      → InstanceIsValid i
      → InstanceIsValid (debug_instance c drawn eid apdu i).1
  unfolding debug_instance
  debug_instance-IsValid drawn eid apdu i v =
      let r = (process_apdu apdu i.apdu).0 in
      elim (Bool-cases (is_es10 r)) [
        | inl es10 ↦
            rw es10 (dispatch-StateIsValid i.pki drawn eid (take (length r - 2) r) i.euicc v)
        | inr plain ↦ rw plain v
      ]

  debug_on-InstancesAreValid :
      (drawn : Draws) (eid : Text) (o : Option EuiccInstance) (apdu : Option Bytes)
      (app : Application)
      → get_euicc eid app.instances ≡ o
      → InstancesAreValid app.instances
      → InstancesAreValid (debug_on c drawn eid o apdu app).1.instances
  debug_on-InstancesAreValid drawn eid none apdu app here v = v
  debug_on-InstancesAreValid drawn eid (some i) none app here v = v
  debug_on-InstancesAreValid drawn eid (some i) (some apdu) app here v =
      InstancesAreValid-put_instance eid (debug_instance c drawn eid apdu i).1 app.instances
        (debug_instance-IsValid drawn eid apdu i
          (Every-get InstanceIsValid eid app.instances i here v.0))
        v

with_challenge-InstancesAreValid :
    (eid : Text) (drawn : Bytes) (o : Option EuiccInstance) (m : Instances)
    → get_euicc eid m ≡ o
    → InstancesAreValid m
    → InstancesAreValid (with_challenge eid drawn (found o) m).1
unfolding get_euicc_challenge
with_challenge-InstancesAreValid eid drawn none m here v = v
with_challenge-InstancesAreValid eid drawn (some i) m here v =
    let (valid, session) = Every-get InstanceIsValid eid m i here v.0 in
    InstancesAreValid-put_instance eid _ m
      (
        IsValid-with_session i.euicc _ valid,
        get_euicc_challenge-SessionIsValid (Vouched i.pki) drawn i.euicc,
      )
      v

open_client-app : (id : ℕ) (o : Option Text) (s : ApduTcpServer) → (open_client id o s).app ≡ s.app
open_client-app id none s = refl
open_client-app id (some eid) s = ground arith

pub handle_client-app : (id port : ℕ) (s : ApduTcpServer) → (handle_client id port s).app ≡ s.app
unfolding handle_client
handle_client-app id port s = ground (arith, open_client-app id (eid_at port s.app.port_map) s)

module _ (c : Codec) (draws : ℕ → Draws) where
  abbrev CardIsValid : Engine → Card → Type 0
  CardIsValid e (s, calls) = StateIsValid e s

  dispatch_next-CardIsValid :
      (e : Engine) (eid : Text) (command : Bytes) (w : Card)
      → CardIsValid e w
      → CardIsValid e (dispatch_next c e draws eid command w).1
  unfolding dispatch_next
  dispatch_next-CardIsValid e eid command (s, calls) v =
      dispatch-StateIsValid c e (draws calls) eid command s v

  serve_read-InstancesAreValid :
      (id : ℕ) (incoming : Bytes) (h : ApduConnectionHandler) (o : Option EuiccInstance)
      (s : ApduTcpServer)
      → get_euicc h.eid s.app.instances ≡ o
      → InstancesAreValid s.app.instances
      → InstancesAreValid (serve_read c draws id incoming h o s).1.app.instances
  unfolding serve_read
  serve_read-InstancesAreValid id incoming h none s here v = v
  serve_read-InstancesAreValid id incoming h (some i) s here v =
      let valid = Every-get InstanceIsValid h.eid s.app.instances i here v.0 in
      InstancesAreValid-put_instance h.eid _ s.app.instances
        (handle_read_keeps (dispatch_next c i.pki draws) (CardIsValid i.pki)
          (dispatch_next-CardIsValid i.pki) incoming h (i.euicc, s.calls) valid)
        v

  read_from-InstancesAreValid :
      (id : ℕ) (incoming : Bytes) (o : Option ApduConnectionHandler) (s : ApduTcpServer)
      → InstancesAreValid s.app.instances
      → InstancesAreValid (read_from c draws id incoming o s).1.app.instances
  read_from-InstancesAreValid id incoming none s v = v
  read_from-InstancesAreValid id [] (some h) s v = v
  read_from-InstancesAreValid id (b ∷ bs) (some h) s v =
      serve_read-InstancesAreValid id (b ∷ bs) h (get_euicc h.eid s.app.instances) s refl v

  pub turn-InstancesAreValid :
      (event : Event) (s : ApduTcpServer)
      → InstancesAreValid s.app.instances
      → InstancesAreValid (turn c draws event s).app.instances
  unfolding turn apdu_debug es10_challenge get_instance get_euicc
  turn-InstancesAreValid (connect id port) s v =
      subst (λ app. InstancesAreValid app.instances) (sym (handle_client-app id port s)) v
  turn-InstancesAreValid (receive id incoming) s v =
      read_from-InstancesAreValid id incoming (client id s.clients) s v
  turn-InstancesAreValid (debug eid apdu_hex) s v =
      debug_on-InstancesAreValid c (draws s.calls) eid (get_euicc eid s.app.instances)
        (fromhex apdu_hex) s.app refl v
  turn-InstancesAreValid (open_session eid) s v =
      with_challenge-InstancesAreValid eid (draws s.calls).challenge (get_euicc eid s.app.instances)
        s.app.instances refl v
  turn-InstancesAreValid shut_down s v = v

  pub run-InstancesAreValid :
      (events : List Event) (s : ApduTcpServer)
      → InstancesAreValid s.app.instances
      → InstancesAreValid (run c draws events s).app.instances
  unfolding run
  run-InstancesAreValid [] s v = v
  run-InstancesAreValid (event ∷ events) s v =
      run-InstancesAreValid events (turn c draws event s) (turn-InstancesAreValid event s v)
