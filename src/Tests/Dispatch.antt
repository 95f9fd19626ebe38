-- ===== src/Tests/Dispatch.antt =====
-- app/services/apdu_dispatcher.py at concrete inputs: a codec that encodes every message as no bytes,
-- and decodes each request it knows to one value.
use euicc_simulator.Prelude.{◌≡◌, refl, none, some, [], ◌∷◌, Bytes, arith, fromhex}
use euicc_simulator.Prelude.Outcome.{returned}
use euicc_simulator.Euicc.{EuiccState, new_euicc, disabled, operational}
use euicc_simulator.Es10c.{get_eid}
use euicc_simulator.Services.Tags.{command_name}
use euicc_simulator.Services.Tlv.{identify_command}
use euicc_simulator.Dispatcher.Codec.{Codec}
use euicc_simulator.Dispatcher.Es10c.{handle_get_eid}
use euicc_simulator.Dispatcher.Routes.{Draws, route_in, execute, dispatch}
use euicc_simulator.Dispatcher.Requests.{call_for}
use euicc_simulator.Dispatcher.Refines.{dispatch-ran}
use euicc_simulator.Dispatcher.Responses.{dispatch_returns, dispatch_tagged}
use euicc_simulator.Simulator.{Command, perform}
use euicc_simulator.Tests.Download.{engine}

abbrev pub codec : Codec
codec = record {
  encode = λ message. some (0x5C ∷ []);
  decode_authenticate = λ request. none;
  decode_prepare = λ request. none;
  decode_bpp = λ request. none;
  decode_cancel = λ request. none;
  decode_remove = λ request. some (some 1);
  decode_enable = λ request. some record { iccid = some (8 ∷ []); isdp_aid = none };
  decode_disable = λ request. some record { iccid = some (8 ∷ []); isdp_aid = none };
  decode_delete = λ request. some record { iccid = some (8 ∷ []); isdp_aid = none };
  decode_reset = λ request. none;
  decode_nickname = λ request. none;
  decode_rollback = λ request. some none;
  decode_auto_enable = λ request. none;
  decode_address = λ request. some none;
  decode_package = λ request. none;
  decode_certs = λ request. none;
  decode_initial_eims = λ request. some [];
}

abbrev pub drawn : Draws
drawn = record { challenge = 5 ∷ []; otpk = ([], 4 ∷ []); iccid = 7 ∷ []; tokens = λ n. n }

-- A card whose profile is enabled by the command below.
abbrev card : EuiccState
card = record (new_euicc []) {
  profiles =
      record {
        iccid = 8 ∷ [];
        isdp_aid = 9 ∷ [];
        state = disabled;
        profile_name = [];
        service_provider_name = [];
        profile_nickname = [];
        profile_class = operational;
        notification_address = [];
        policy_rules = [];
        profile_data = [];
      }
      ∷ [];
}

abbrev enable_command : Bytes
enable_command = 0xBF ∷ 0x31 ∷ 0 ∷ []

dispatch-ran_example :
    (dispatch codec engine drawn [] enable_command card).1
    ≡ perform engine (Command.enable (some (8 ∷ [])) none) card
unfolding identify_command call_for
dispatch-ran_example = dispatch-ran codec engine drawn [] enable_command card

dispatch_returns_example :
    (apdu : Bytes) × ((dispatch codec engine drawn [] enable_command card).0 ≡ returned apdu)
unfolding identify_command
dispatch_returns_example =
    dispatch_returns codec engine drawn [] (command_name 0xBF31) enable_command [] 0xBF31 card refl
      (omega arith)

dispatch_tagged_example :
    (apdu : Bytes) × (dispatch codec engine drawn [] (0xBF ∷ 0x3E ∷ 0 ∷ []) card
      ≡ (returned apdu, card))
    × (identify_command apdu ≡ some (0xBF3E, command_name 0xBF3E, 0x5C ∷ []))
unfolding identify_command execute route_in handle_get_eid get_eid new_euicc fromhex
dispatch_tagged_example =
    dispatch_tagged codec engine drawn [] (command_name 0xBF3E) (0xBF ∷ 0x3E ∷ 0 ∷ []) []
      (0x5C ∷ []) 0xBF3E card card refl refl (omega arith)
