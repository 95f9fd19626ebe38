-- ===== src/Simulator/Authenticity.antt =====
-- Every call of a handler of app/es10 keeps the session authentic: the handlers outside ES10b leave
-- it or end it.
use euicc_simulator.Prelude.{
  ℕ, ◌≡◌, refl, sym, subst, ◌∙◌, none, some, Option, List, [], ◌∷◌, Bytes, Text, inl, inr, arith,
  default, Option-cases, Bool-cases,
}
use euicc_simulator.Prelude.Int.{leb_ℤ, pos}
use euicc_simulator.Euicc.{
  ProfileSlot, DownloadSession, EuiccState, add_notification, get_enabled_profile,
}
use euicc_simulator.Es10a.{set_default_dp_address}
use euicc_simulator.Es10b.Engine.{Engine}
use euicc_simulator.Es10b.Notifications.{remove_notification}
use euicc_simulator.Es10b.Sessions.{
  Vouched, SessionIsValid, get_euicc_challenge-SessionIsValid, authenticate_server-SessionIsValid,
}
use euicc_simulator.Es10b.Prepared.{prepare_download-SessionIsValid}
use euicc_simulator.Es10b.Installs.{load_bound_profile_package-SessionIsValid}
use euicc_simulator.Es10b.Queue.{cancel_session-SessionIsValid}
use euicc_simulator.Es10bIot.{EimConfig, find_eim, add_eim, delete_eim, update_eim, add_initial_eim}
use euicc_simulator.Es10bIot.Package.{
  Psmo, Eco, Package, psmo_disable_current, execute_psmo, execute_eco, run_psmos, run_ecos, accept,
  load_euicc_package,
}
use euicc_simulator.Es10c.{
  disable_current, enable_profile, disable_profile, delete_profile, set_nickname, roll_back,
  profile_rollback,
}
use euicc_simulator.Es10c.Reset.{
  ResetOptions, absent, octets, bit_string, ResetFlags, all_flags, run_reset, euicc_memory_reset,
  euicc_memory_reset_sgp32,
}
use euicc_simulator.Simulator.{
  Command, set_address, challenge, authenticate, prepare, load, cancel, remove, enable, disable,
  delete, nickname, rollback, reset, reset_sgp32, register, unregister, change, register_initial,
  load_iot, perform,
}

-- The session of two states is one.
abbrev SameSession : EuiccState → EuiccState → Type 0
SameSession s t = t.active_session ≡ s.active_session

remove_notification-SameSession :
    (n : ℕ) (s : EuiccState) → SameSession s (remove_notification n s).1
unfolding remove_notification
remove_notification-SameSession n s = ground arith

disable_current-SameSession :
    (o : Option (ℕ × ProfileSlot)) (s : EuiccState) → SameSession s (disable_current o s)
unfolding add_notification
disable_current-SameSession none s = refl
disable_current-SameSession (some (j, p)) s = refl

enable_profile-SameSession :
    (iccid aid : Option Bytes) (s : EuiccState) → SameSession s (enable_profile iccid aid s).1
unfolding enable_profile add_notification
enable_profile-SameSession iccid aid s =
    ground (arith, disable_current-SameSession (get_enabled_profile s) s)

disable_profile-SameSession :
    (iccid aid : Option Bytes) (s : EuiccState) → SameSession s (disable_profile iccid aid s).1
unfolding disable_profile add_notification
disable_profile-SameSession iccid aid s = ground arith

delete_profile-SameSession :
    (iccid aid : Option Bytes) (s : EuiccState) → SameSession s (delete_profile iccid aid s).1
unfolding delete_profile add_notification
delete_profile-SameSession iccid aid s = ground arith

set_nickname-SameSession :
    (iccid : Bytes) (name : Text) (s : EuiccState) → SameSession s (set_nickname iccid name s).1
unfolding set_nickname
set_nickname-SameSession iccid name s = ground arith

run_reset-SameSession : (f : ResetFlags) (s : EuiccState) → SameSession s (run_reset f s).1
run_reset-SameSession f s = ground arith

euicc_memory_reset-SameSession :
    (o : ResetOptions) (s : EuiccState) → SameSession s (euicc_memory_reset o s).1
unfolding euicc_memory_reset
euicc_memory_reset-SameSession absent s = run_reset-SameSession all_flags s
euicc_memory_reset-SameSession (octets []) s = run_reset-SameSession all_flags s
euicc_memory_reset-SameSession (octets (flags ∷ _)) s = run_reset-SameSession _ s
euicc_memory_reset-SameSession (bit_string _ _) s = refl

euicc_memory_reset_sgp32-SameSession :
    (b : Bytes) (n : ℕ) (s : EuiccState) → SameSession s (euicc_memory_reset_sgp32 b n s).1
unfolding euicc_memory_reset_sgp32 euicc_memory_reset
euicc_memory_reset_sgp32-SameSession [] n s = run_reset-SameSession all_flags s
euicc_memory_reset_sgp32-SameSession (b ∷ bs) n s = refl

add_eim-SameSession :
    (config : EimConfig) (token : ℕ) (s : EuiccState) → SameSession s (add_eim config token s).1
unfolding add_eim
add_eim-SameSession config token s = ground arith

delete_eim-SameSession : (id : Text) (s : EuiccState) → SameSession s (delete_eim id s).1
unfolding delete_eim
delete_eim-SameSession id s = ground arith

update_eim-SameSession :
    (id : Text) (config : EimConfig) (s : EuiccState) → SameSession s (update_eim id config s).1
unfolding update_eim
update_eim-SameSession id config s = ground arith

add_initial_eim-SameSession :
    (cs : List (EimConfig × ℕ)) (s : EuiccState) → SameSession s (add_initial_eim cs s).1
unfolding add_initial_eim
add_initial_eim-SameSession [] s = refl
add_initial_eim-SameSession ((config, token) ∷ cs) s =
    add_initial_eim-SameSession cs (add_eim config token s).1 ∙ add_eim-SameSession config token s

psmo_disable_current-SameSession :
    (o : Option (ℕ × ProfileSlot)) (s : EuiccState) → SameSession s (psmo_disable_current o s)
psmo_disable_current-SameSession none s = refl
psmo_disable_current-SameSession (some (j, p)) s = refl

execute_psmo-SameSession : (op : Psmo) (s : EuiccState) → SameSession s (execute_psmo op s).1
unfolding execute_psmo
execute_psmo-SameSession op s =
    ground (arith, psmo_disable_current-SameSession (get_enabled_profile s) s)

run_psmos-SameSession : (ops : List Psmo) (s : EuiccState) → SameSession s (run_psmos ops s).1
unfolding run_psmos
run_psmos-SameSession [] s = refl
run_psmos-SameSession (op ∷ ops) s =
    run_psmos-SameSession ops (execute_psmo op s).1 ∙ execute_psmo-SameSession op s

execute_eco-SameSession : (op : Eco) (s : EuiccState) → SameSession s (execute_eco op s).1
unfolding execute_eco
execute_eco-SameSession (Eco.add config token) s = add_eim-SameSession config token s
execute_eco-SameSession (Eco.remove id) s = delete_eim-SameSession (default id []) s
execute_eco-SameSession (Eco.update id config) s = update_eim-SameSession (default id []) config s
execute_eco-SameSession Eco.list_eim s = refl
execute_eco-SameSession (Eco.other name) s = refl

run_ecos-SameSession : (ops : List Eco) (s : EuiccState) → SameSession s (run_ecos ops s).1
unfolding run_ecos
run_ecos-SameSession [] s = refl
run_ecos-SameSession (op ∷ ops) s =
    run_ecos-SameSession ops (execute_eco op s).1 ∙ execute_eco-SameSession op s

load_euicc_package-SameSession :
    (pkg : Package) (s : EuiccState) → SameSession s (load_euicc_package pkg s).1
unfolding load_euicc_package
load_euicc_package-SameSession pkg s = elim (Option-cases (find_eim (default pkg.eim_id []) s)) [
  | inl unknown ↦ rw (load_euicc_package, unknown) refl
  | inr ((i, a), here) ↦
      elim (Bool-cases (leb_ℤ (default pkg.counter_value (pos 0)) a.counter_value)) [
        | inl old ↦ rw (load_euicc_package, here, old) refl
        | inr new ↦
            let s' = accept i (default pkg.counter_value (pos 0)) s in
            rw (load_euicc_package, here, new)
              (run_ecos-SameSession pkg.eco_list (run_psmos pkg.psmo_list s').1
                ∙ run_psmos-SameSession pkg.psmo_list s')
      ]
]

module _ (e : Engine) (P : Option Bytes → Type 0)
    (vouches : (key : Bytes) → Vouched e (some key) → P (some key)) where
  same : {o o' : Option DownloadSession} → o' ≡ o → SessionIsValid P o → SessionIsValid P o'
  same h v = subst (SessionIsValid P) (sym h) v

  roll_back-SessionIsValid :
      (o : Option DownloadSession) (s : EuiccState)
      → SessionIsValid P s.active_session
      → SessionIsValid P (roll_back o s).1.active_session
  roll_back-SessionIsValid none s v = v
  roll_back-SessionIsValid (some d) s v = tt

  pub perform-SessionIsValid :
      (c : Command) (s : EuiccState)
      → SessionIsValid P s.active_session
      → SessionIsValid P (perform e c s).active_session
  unfolding set_default_dp_address profile_rollback
  perform-SessionIsValid (set_address address) s v = v
  perform-SessionIsValid (challenge drawn) s v = get_euicc_challenge-SessionIsValid P drawn s
  perform-SessionIsValid (authenticate signed signature pkid certificate ctx raw) s v =
      authenticate_server-SessionIsValid e P vouches signed signature pkid certificate ctx raw s v
  perform-SessionIsValid (prepare signed signature hash_cc certificate raw otpk) s v =
      prepare_download-SessionIsValid e P signed signature hash_cc certificate raw otpk s v
  perform-SessionIsValid (load bpp random_iccid) s v =
      load_bound_profile_package-SessionIsValid e P bpp random_iccid s v
  perform-SessionIsValid (cancel transaction_id reason) s v =
      cancel_session-SessionIsValid e P transaction_id reason s v
  perform-SessionIsValid (remove seq_number) s v =
      same (remove_notification-SameSession seq_number s) v
  perform-SessionIsValid (enable iccid aid) s v = same (enable_profile-SameSession iccid aid s) v
  perform-SessionIsValid (disable iccid aid) s v = same (disable_profile-SameSession iccid aid s) v
  perform-SessionIsValid (delete iccid aid) s v = same (delete_profile-SameSession iccid aid s) v
  perform-SessionIsValid (nickname iccid name) s v = same (set_nickname-SameSession iccid name s) v
  perform-SessionIsValid rollback s v = roll_back-SessionIsValid s.active_session s v
  perform-SessionIsValid (reset options) s v = same (euicc_memory_reset-SameSession options s) v
  perform-SessionIsValid (reset_sgp32 opts_bytes bit_count) s v =
      same (euicc_memory_reset_sgp32-SameSession opts_bytes bit_count s) v
  perform-SessionIsValid (register config token) s v = same (add_eim-SameSession config token s) v
  perform-SessionIsValid (unregister eim_id) s v = same (delete_eim-SameSession eim_id s) v
  perform-SessionIsValid (change eim_id config) s v =
      same (update_eim-SameSession eim_id config s) v
  perform-SessionIsValid (register_initial configs) s v =
      same (add_initial_eim-SameSession configs s) v
  perform-SessionIsValid (load_iot pkg) s v = same (load_euicc_package-SameSession pkg s) v
