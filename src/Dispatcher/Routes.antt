-- ===== src/Dispatcher/Routes.antt =====
-- `_execute` and `dispatch` of app/services/apdu_dispatcher.py.
use euicc_simulator.Prelude.{
  ℕ, Option, none, some, List, [], ◌∷◌, Bytes, Text, ◌==◌, if◌then◌else◌, replicate,
}
use euicc_simulator.Prelude.Outcome.{Outcome, returned, raised}
use euicc_simulator.Euicc.{EuiccState}
use euicc_simulator.Es10b.Engine.{Engine}
use euicc_simulator.Services.Tlv.{identify_command, build_response_apdu}
use euicc_simulator.Dispatcher.Codec.{eid_response, Codec, Handled}
use euicc_simulator.Dispatcher.Es10b.{
  handle_get_info1, handle_get_info2, handle_get_challenge, handle_authenticate_server,
  handle_prepare_download, handle_load_bpp, handle_cancel_session, handle_list_notifications,
  handle_remove_notification, handle_retrieve_notifications, handle_get_euicc_information,
}
use euicc_simulator.Dispatcher.Es10c.{
  handle_get_eid, handle_get_profiles, handle_enable_profile, handle_disable_profile,
  handle_delete_profile, handle_memory_reset, handle_set_nickname, handle_profile_rollback,
  handle_configure_auto_enable, handle_enable_using_dd, handle_get_addresses, handle_set_dp_address,
}
use euicc_simulator.Dispatcher.Iot.{
  handle_iot_package, handle_get_eim_config, handle_get_eim_config_sgp32, handle_get_certs,
  handle_add_initial_eim,
}

-- A branch of `_execute`.
pub data Route : Type 0 where
  get_info1 get_info2 get_challenge authenticate prepare load_bpp cancel : Route
  list_notifications remove_notification retrieve_notifications get_information : Route
  get_eid get_profiles enable disable delete memory_reset nickname rollback auto_enable using_dd :
      Route
  get_addresses set_dp_address : Route
  iot_package get_eim_config get_eim_config_sgp32 get_certs add_initial_eim : Route

-- The tests of the chain of branches, in their order.
abbrev pub branches : List (ℕ × Route)
branches =
    (0xBF20, get_info1)
    ∷ (0xBF22, get_info2)
    ∷ (0xBF2E, get_challenge)
    ∷ (0xBF38, authenticate)
    ∷ (0xBF21, prepare)
    ∷ (0xBF36, load_bpp)
    ∷ (0xBF41, cancel)
    ∷ (0xBF28, list_notifications)
    ∷ (0xBF2F, remove_notification)
    ∷ (0xBF2B, retrieve_notifications)
    ∷ (0xBF43, get_information)
    ∷ (0xBF3E, get_eid)
    ∷ (0xBF2D, get_profiles)
    ∷ (0xBF31, enable)
    ∷ (0xBF32, disable)
    ∷ (0xBF33, delete)
    ∷ (0xBF34, memory_reset)
    ∷ (0xBF29, nickname)
    ∷ (0xBF58, rollback)
    ∷ (0xBF59, auto_enable)
    ∷ (0xBF5A, using_dd)
    ∷ (0xBF3C, get_addresses)
    ∷ (0xBF3F, set_dp_address)
    ∷ (0xBF50, iot_package)
    ∷ (0xBF52, get_eim_config)
    ∷ (0xBF55, get_eim_config_sgp32)
    ∷ (0xBF56, get_certs)
    ∷ (0xBF57, add_initial_eim)
    ∷ []

-- The first branch whose test holds.
unfoldable pub route_in : ℕ → List (ℕ × Route) → Option Route
route_in tag [] = none
route_in tag ((t, route) ∷ rest) = if tag == t then some route else route_in tag rest

-- What one call draws at random.
pub record Draws : Type 0 where
  pub challenge : Bytes
  pub otpk : Bytes × Bytes
  pub iccid : Bytes
  pub tokens : ℕ → ℕ

module _ (c : Codec) (e : Engine) (drawn : Draws) where
  abbrev pub follow : Route → Bytes → EuiccState → Handled
  follow get_info1 inner s = handle_get_info1 c e s
  follow get_info2 inner s = handle_get_info2 c e s
  follow get_challenge inner s = handle_get_challenge c drawn.challenge s
  follow authenticate inner s = handle_authenticate_server c e inner s
  follow prepare inner s = handle_prepare_download c e drawn.otpk inner s
  follow load_bpp inner s = handle_load_bpp c e drawn.iccid inner s
  follow cancel inner s = handle_cancel_session c e inner s
  follow list_notifications inner s = handle_list_notifications c s
  follow remove_notification inner s = handle_remove_notification c inner s
  follow retrieve_notifications inner s = handle_retrieve_notifications c s
  follow get_information inner s = handle_get_euicc_information c e s
  follow get_eid inner s = handle_get_eid c s
  follow get_profiles inner s = handle_get_profiles c s
  follow enable inner s = handle_enable_profile c inner s
  follow disable inner s = handle_disable_profile c inner s
  follow delete inner s = handle_delete_profile c inner s
  follow memory_reset inner s = handle_memory_reset c inner s
  follow nickname inner s = handle_set_nickname c inner s
  follow rollback inner s = handle_profile_rollback c inner s
  follow auto_enable inner s = handle_configure_auto_enable c inner s
  follow using_dd inner s = handle_enable_using_dd c s
  follow get_addresses inner s = handle_get_addresses c s
  follow set_dp_address inner s = handle_set_dp_address c inner s
  follow iot_package inner s = handle_iot_package c drawn.tokens inner s
  follow get_eim_config inner s = handle_get_eim_config c s
  follow get_eim_config_sgp32 inner s = handle_get_eim_config_sgp32 c s
  follow get_certs inner s = handle_get_certs c e inner s
  follow add_initial_eim inner s = handle_add_initial_eim c drawn.tokens inner s

  abbrev pub follow_route : Option Route → Bytes → EuiccState → Handled
  follow_route none inner s = (returned none, s)
  follow_route (some route) inner s = follow route inner s

  unfoldable pub execute : ℕ → Bytes → EuiccState → Handled
  execute tag inner s = follow_route (route_in tag branches) inner s

-- `none` is an exception of `build_response_apdu`.
abbrev pub or_raised : Option Bytes → Outcome Bytes
or_raised none = raised
or_raised (some apdu) = returned apdu

-- The answer to a command that is not known: a GetEID response of zeros.
abbrev pub unknown_response : Codec → Outcome Bytes
unknown_response c = elim (c.encode (eid_response (replicate 16 0))) [
  | none ↦ raised
  | some b ↦ or_raised (build_response_apdu 0xBF3E b)
]

-- The exception of a handler is caught; what comes after the `try` is not.
abbrev pub concluded : ℕ → Handled → Outcome Bytes × EuiccState
concluded tag (raised, s) = (returned (0x6F ∷ 0x00 ∷ []), s)
concluded tag (returned none, s) = (returned (0x6A ∷ 0x80 ∷ []), s)
concluded tag (returned (some response), s) = (or_raised (build_response_apdu tag response), s)

abbrev pub dispatch_identified :
    Codec → Engine → Draws → Option (ℕ × Text × Bytes) → EuiccState → Outcome Bytes × EuiccState
dispatch_identified c e drawn none s = (raised, s)
dispatch_identified c e drawn (some (tag, name, inner)) s =
    if tag == 0 then (unknown_response c, s) else concluded tag (execute c e drawn tag inner s)

-- The EID is only logged.
unfoldable pub dispatch :
    Codec → Engine → Draws → Text → Bytes → EuiccState → Outcome Bytes × EuiccState
dispatch c e drawn eid command s = dispatch_identified c e drawn (identify_command command) s
