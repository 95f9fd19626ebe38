-- ===== src/Simulator.antt =====
-- The handlers of app/es10 on one eUICC, as a machine: a command is a call of a method that can
-- change the state, with its arguments and what it draws at random.
pub mod Validity
pub mod Authenticity
pub mod Footprint
pub mod Memory
pub mod Budgets
pub mod CardResource
pub mod Download
pub mod Reachability
pub mod Trust
pub mod Serve
use euicc_simulator.Prelude.{ℕ, Option, List, Bytes, Text}
use euicc_simulator.Euicc.{EuiccState}
use euicc_simulator.Es10a.{set_default_dp_address}
use euicc_simulator.Es10b.Engine.{ServerSigned1, SmdpSigned2, CtxParams, Engine}
use euicc_simulator.Es10b.Info.{get_euicc_challenge}
use euicc_simulator.Es10b.Authenticate.{authenticate_server}
use euicc_simulator.Es10b.Prepare.{prepare_download}
use euicc_simulator.Es10b.Load.{Bpp, load_bound_profile_package}
use euicc_simulator.Es10b.Notifications.{cancel_session, remove_notification}
use euicc_simulator.Es10bIot.{EimConfig, add_eim, delete_eim, update_eim, add_initial_eim}
use euicc_simulator.Es10bIot.Package.{Package, load_euicc_package}
use euicc_simulator.Es10c.{
  enable_profile, disable_profile, delete_profile, profile_rollback, set_nickname,
}
use euicc_simulator.Es10c.Reset.{ResetOptions, euicc_memory_reset, euicc_memory_reset_sgp32}

pub data Command : Type 0 where
  set_address : Text → Command
  challenge : Bytes → Command
  authenticate : ServerSigned1 → Bytes → Bytes → Bytes → CtxParams → Option Bytes → Command
  prepare :
      SmdpSigned2 → Bytes → Option Bytes → Option Bytes → Option Bytes → Bytes × Bytes → Command
  load : Bpp → Bytes → Command
  cancel : Bytes → ℕ → Command
  remove : ℕ → Command
  enable disable delete : Option Bytes → Option Bytes → Command
  nickname : Bytes → Text → Command
  rollback : Command
  reset : ResetOptions → Command
  reset_sgp32 : Bytes → ℕ → Command
  register : EimConfig → ℕ → Command
  unregister : Text → Command
  change : Text → EimConfig → Command
  register_initial : List (EimConfig × ℕ) → Command
  load_iot : Package → Command

-- The state that a call leaves, whether it returns or raises.
abbrev pub perform : Engine → Command → EuiccState → EuiccState
perform e (set_address address) s = (set_default_dp_address address s).1
perform e (challenge drawn) s = (get_euicc_challenge drawn s).1
perform e (authenticate signed signature pkid certificate ctx raw) s =
    (authenticate_server e signed signature pkid certificate ctx raw s).1
perform e (prepare signed signature hash_cc certificate raw otpk) s =
    (prepare_download e signed signature hash_cc certificate raw otpk s).1
perform e (load bpp random_iccid) s = (load_bound_profile_package e bpp random_iccid s).1
perform e (cancel transaction_id reason) s = (cancel_session e transaction_id reason s).1
perform e (remove seq_number) s = (remove_notification seq_number s).1
perform e (enable iccid aid) s = (enable_profile iccid aid s).1
perform e (disable iccid aid) s = (disable_profile iccid aid s).1
perform e (delete iccid aid) s = (delete_profile iccid aid s).1
perform e (nickname iccid name) s = (set_nickname iccid name s).1
perform e rollback s = (profile_rollback s).1
perform e (reset options) s = (euicc_memory_reset options s).1
perform e (reset_sgp32 opts_bytes bit_count) s = (euicc_memory_reset_sgp32 opts_bytes bit_count s).1
perform e (register config token) s = (add_eim config token s).1
perform e (unregister eim_id) s = (delete_eim eim_id s).1
perform e (change eim_id config) s = (update_eim eim_id config s).1
perform e (register_initial configs) s = (add_initial_eim configs s).1
perform e (load_iot pkg) s = (load_euicc_package pkg s).1
