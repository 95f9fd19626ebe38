-- ===== src/Dispatcher/Iot.antt =====
-- The SGP.32 handlers of app/services/apdu_dispatcher.py.
use euicc_simulator.Prelude.{ℕ, ◌+◌, List, [], ◌∷◌, Bytes}
use euicc_simulator.Prelude.Outcome.{raised}
use euicc_simulator.Euicc.{EuiccState}
use euicc_simulator.Es10b.Engine.{Engine}
use euicc_simulator.Es10bIot.{
  EimConfig, get_eim_configuration_data, get_eim_config_sgp32, add_initial_eim,
}
use euicc_simulator.Es10bIot.Certs.{get_certs_sgp32}
use euicc_simulator.Es10bIot.Package.{load_euicc_package}
use euicc_simulator.Dispatcher.Codec.{
  PackageRequest, fields, choice, package_response, eim_list, eim_list_sgp32, certs_response,
  initial_eims, Codec, Handled, encoded, respond_with, decoded,
}

-- `load_euicc_package` calls `get` of its argument, which a pair does not have.
abbrev pub load_request : Codec → (ℕ → ℕ) → PackageRequest → EuiccState → Handled
load_request c tokens (fields package_of) s =
    respond_with c package_response (load_euicc_package (package_of tokens) s)
load_request c tokens (choice name) s = (raised, s)

unfoldable pub handle_iot_package : Codec → (ℕ → ℕ) → Bytes → EuiccState → Handled
handle_iot_package c tokens inner s =
    decoded (c.decode_package inner) (λ request. load_request c tokens request s) s

unfoldable pub handle_get_eim_config : Codec → EuiccState → Handled
handle_get_eim_config c s = (encoded (c.encode (eim_list (get_eim_configuration_data s))), s)

unfoldable pub handle_get_eim_config_sgp32 : Codec → EuiccState → Handled
handle_get_eim_config_sgp32 c s = (encoded (c.encode (eim_list_sgp32 (get_eim_config_sgp32 s))), s)

unfoldable pub handle_get_certs : Codec → Engine → Bytes → EuiccState → Handled
handle_get_certs c e inner s =
    decoded (c.decode_certs inner)
      (λ euicc_ci_pkid. (encoded (c.encode (certs_response (get_certs_sgp32 e euicc_ci_pkid))), s))
      s

-- The tokens that the configurations of a list will draw, the next one first.
abbrev pub with_tokens : (ℕ → ℕ) → ℕ → List EimConfig → List (EimConfig × ℕ)
with_tokens tokens i [] = []
with_tokens tokens i (config ∷ configs) = (config, tokens i) ∷ with_tokens tokens (i + 1) configs

unfoldable pub handle_add_initial_eim : Codec → (ℕ → ℕ) → Bytes → EuiccState → Handled
handle_add_initial_eim c tokens inner s =
    decoded (c.decode_initial_eims inner)
      (λ configs. respond_with c initial_eims (add_initial_eim (with_tokens tokens 0 configs) s)) s
