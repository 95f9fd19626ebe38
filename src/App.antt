-- ===== src/App.antt =====
-- app/main.py: what the application sets up at its start and writes at its end, and the endpoint for
-- APDUs over HTTP. A dispatcher holds a reference to its instance, which is never replaced, so the
-- dispatchers are the EIDs that have one. Restart holds what a start finds of an earlier run.
pub mod Restart
pub mod Config
pub mod Endpoints
pub mod Info
pub mod Ports
pub mod Server
pub mod Lifecycle
pub mod Paths
use euicc_simulator.Prelude.{
  ℕ, ◌+◌, ◌-◌, Bool, true, false, ◌&&◌, Option, none, some, List, [], ◌∷◌, ◌++◌, map, Bytes, Text,
  codes, bytes_eq, hex, fromhex, truthy, ltb, if◌then◌else◌, length, take, drop,
}
use euicc_simulator.Prelude.Outcome.{Outcome, returned, raised}
use euicc_simulator.Es10b.Engine.{Engine}
use euicc_simulator.Services.ApduHandler.{sw_ok, process_apdu}
use euicc_simulator.Dispatcher.Codec.{Codec}
use euicc_simulator.Dispatcher.Routes.{Draws, dispatch}
use euicc_simulator.Manager.{EuiccInstance, Instances, get_euicc, put_instance, create_test_euiccs}
use euicc_simulator.Database.{Tables, Database, load_persisted_euiccs, persist_euiccs}

pub record Application : Type 0 where
  pub instances : Instances
  pub dispatchers : List Text
  pub port_map : List (ℕ × Text)

-- The loop over the instances, `offset` being `len(port_map)`.
abbrev pub port_map_from : ℕ → ℕ → Instances → List (ℕ × Text)
port_map_from port offset [] = []
port_map_from port offset ((key, i) ∷ rest) =
    (port + offset, i.euicc.eid) ∷ port_map_from port (offset + 1) rest

abbrev pub keys : Instances → List Text
keys [] = []
keys ((eid, i) ∷ rest) = eid ∷ keys rest

module _ (initialize : Text → Option Engine) where
  -- The dispatchers are those of the instances that exist by then.
  unfoldable pub setup_euiccs : Outcome Bool × Application
  unfolding create_test_euiccs
  setup_euiccs =
      let (outcome, instances) =
        create_test_euiccs initialize (codes "smdpplus.connectxiot.com")
          (codes "eim.connectxiot.com") [] in
      (outcome, record { instances = instances; dispatchers = keys instances; port_map = [] })

  module _ (t : Tables) where
    abbrev pub after_setup :
        ℕ → Option (Database t) → Outcome Bool × Application → Outcome Bool × Application
    after_setup port d (raised, app) = (raised, app)
    after_setup port d (returned ok, app) =
        let (outcome, instances) = load_persisted_euiccs t initialize d app.instances in
        (outcome, record app { instances = instances; port_map = port_map_from port 0 instances })

    -- The part of `lifespan` before its `yield`, from the initialised database to the port map.
    unfoldable pub startup : ℕ → Option (Database t) → Outcome Bool × Application
    unfolding setup_euiccs load_persisted_euiccs
    startup port d = after_setup port d setup_euiccs

    -- The part behind it.
    unfoldable pub shutdown : Application → Option (Database t) → Option (Database t)
    unfolding persist_euiccs
    shutdown app d = persist_euiccs t app.instances d

pub data DebugReply : Type 0 where
  eid_not_found invalid_hex : DebugReply
  response : Text → DebugReply

abbrev pub member : Text → List Text → Bool
member eid [] = false
member eid (k ∷ ks) = if bytes_eq k eid then true else member eid ks

-- `response[-2:] == 9000` on a response of more than two bytes, with data before it.
abbrev pub is_es10 : Bytes → Bool
is_es10 r = ltb 2 (length r) && bytes_eq (drop (length r - 2) r) sw_ok

abbrev pub hex_reply : Outcome Bytes → Outcome DebugReply
hex_reply raised = raised
hex_reply (returned r) = returned (response (hex r))

module _ (c : Codec) (drawn : Draws) where
  -- The endpoint on an instance: the bytes pass the APDU processor, and what it gives with 9000 is a
  -- command for the dispatcher.
  unfoldable pub debug_instance : Text → Bytes → EuiccInstance → Outcome DebugReply × EuiccInstance
  debug_instance eid apdu i =
      let (r, p) = process_apdu apdu i.apdu in
      let (outcome, s) = dispatch c i.pki drawn eid (take (length r - 2) r) i.euicc in
      if is_es10 r
      then (hex_reply outcome, record i { apdu = p; euicc = s })
      else (returned (response (hex r)), record i { apdu = p })

  abbrev pub debug_on :
      Text → Option EuiccInstance → Option Bytes → Application → Outcome DebugReply × Application
  debug_on eid none apdu app = (returned eid_not_found, app)
  debug_on eid (some i) none app = (returned invalid_hex, app)
  debug_on eid (some i) (some apdu) app =
      let (outcome, i') = debug_instance eid apdu i in
      (
        outcome,
        record app {
          dispatchers =
              if member eid app.dispatchers then app.dispatchers else app.dispatchers ++ eid ∷ [];
          instances = put_instance eid i' app.instances;
        },
      )

  -- `apdu_debug`, once the application is started.
  unfoldable pub apdu_debug : Text → Text → Application → Outcome DebugReply × Application
  unfolding debug_instance put_instance fromhex get_euicc
  apdu_debug eid apdu_hex app = debug_on eid (get_euicc eid app.instances) (fromhex apdu_hex) app
