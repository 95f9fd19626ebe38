-- ===== src/Simulator/Validity.antt =====
-- Every call of a handler of app/es10 keeps the state valid.
use euicc_simulator.Prelude.{
  subst, sym, none, some, Option, Bytes, Text, inl, inr, arith, Option-cases, bit, sum_by-update_at,
  length-update_at, update_at, find_ref_lem, find_ref,
}
use euicc_simulator.Euicc.{
  ProfileSlot, DownloadSession, EuiccState, is_enabled, has_iccid, find_profile_by_iccid,
}
use euicc_simulator.Euicc.Valid.{IsValid, IsValid-with_session, IsValid-with_profiles}
use euicc_simulator.Es10a.{set_default_dp_address}
use euicc_simulator.Es10b.Engine.{Engine}
use euicc_simulator.Es10b.Info.{get_euicc_challenge}
use euicc_simulator.Es10b.Frame.{
  OnlySession, authenticate_server-OnlySession, prepare_download-OnlySession,
}
use euicc_simulator.Es10b.Installs.{load_bound_profile_package-IsValid}
use euicc_simulator.Es10b.Queue.{cancel_session-IsValid, remove_notification_exact}
use euicc_simulator.Es10bIot.Register.{
  add_eim-IsValid, delete_eim-IsValid, update_eim-IsValid, add_initial_eim-IsValid,
}
use euicc_simulator.Es10bIot.Replay.{load_euicc_package-IsValid}
use euicc_simulator.Es10c.{set_nickname, roll_back, profile_rollback}
use euicc_simulator.Es10c.Enable.{enable_profile-IsValid, disable_profile-IsValid}
use euicc_simulator.Es10c.Delete.{delete_profile-IsValid}
use euicc_simulator.Es10c.Memory.{euicc_memory_reset-IsValid, euicc_memory_reset_sgp32-IsValid}
use euicc_simulator.Simulator.{
  Command, set_address, challenge, authenticate, prepare, load, cancel, remove, enable, disable,
  delete, nickname, rollback, reset, reset_sgp32, register, unregister, change, register_initial,
  load_iot, perform,
}

set_default_dp_address-IsValid :
    (address : Text) (s : EuiccState) → IsValid s → IsValid (set_default_dp_address address s).1
unfolding set_default_dp_address
set_default_dp_address-IsValid address s v = record {
  one_enabled = v.one_enabled;
  numbered = v.numbered;
  distinct = v.distinct;
  room = v.room;
}

set_nickname-IsValid :
    (iccid : Bytes) (name : Text) (s : EuiccState)
    → IsValid s
    → IsValid (set_nickname iccid name s).1
unfolding set_nickname find_profile_by_iccid
set_nickname-IsValid iccid name s v = elim (Option-cases (find_ref (has_iccid iccid) s.profiles)) [
  | inl e ↦ rw (set_nickname, find_profile_by_iccid, e) v
  | inr ((i, p), e) ↦
      let named = λ (q : ProfileSlot). record q { profile_nickname = name } in
      let here = (find_ref_lem (has_iccid iccid) s.profiles i p e).0 in
      let same = sum_by-update_at (λ q. bit (is_enabled q)) named s.profiles i p here in
      let size = length-update_at named s.profiles i in
      rw (set_nickname, find_profile_by_iccid, e)
        (IsValid-with_profiles s (update_at i named s.profiles) v
          (omega (arith, same, v.one_enabled)) (omega (arith, size)))
]

roll_back-IsValid :
    (o : Option DownloadSession) (s : EuiccState) → IsValid s → IsValid (roll_back o s).1
roll_back-IsValid none s v = v
roll_back-IsValid (some d) s v = IsValid-with_session s none v

profile_rollback-IsValid : (s : EuiccState) → IsValid s → IsValid (profile_rollback s).1
unfolding profile_rollback
profile_rollback-IsValid s v = roll_back-IsValid s.active_session s v

OnlySession-IsValid : (s t : EuiccState) → OnlySession s t → IsValid s → IsValid t
OnlySession-IsValid s t h v = subst IsValid (sym h) (IsValid-with_session s t.active_session v)

module _ (e : Engine) where
  pub perform-IsValid : (c : Command) (s : EuiccState) → IsValid s → IsValid (perform e c s)
  unfolding get_euicc_challenge
  perform-IsValid (set_address address) s v = set_default_dp_address-IsValid address s v
  perform-IsValid (challenge drawn) s v = IsValid-with_session s _ v
  perform-IsValid (authenticate signed signature pkid certificate ctx raw) s v =
      OnlySession-IsValid s _
        (authenticate_server-OnlySession e signed signature pkid certificate ctx raw s) v
  perform-IsValid (prepare signed signature hash_cc certificate raw otpk) s v =
      OnlySession-IsValid s _
        (prepare_download-OnlySession e signed signature hash_cc certificate raw otpk s) v
  perform-IsValid (load bpp random_iccid) s v =
      load_bound_profile_package-IsValid e bpp random_iccid s v
  perform-IsValid (cancel transaction_id reason) s v =
      cancel_session-IsValid e transaction_id reason s v
  perform-IsValid (remove seq_number) s v = (remove_notification_exact seq_number s v).0
  perform-IsValid (enable iccid aid) s v = enable_profile-IsValid iccid aid s v
  perform-IsValid (disable iccid aid) s v = disable_profile-IsValid iccid aid s v
  perform-IsValid (delete iccid aid) s v = delete_profile-IsValid iccid aid s v
  perform-IsValid (nickname iccid name) s v = set_nickname-IsValid iccid name s v
  perform-IsValid rollback s v = profile_rollback-IsValid s v
  perform-IsValid (reset options) s v = euicc_memory_reset-IsValid options s v
  perform-IsValid (reset_sgp32 opts_bytes bit_count) s v =
      euicc_memory_reset_sgp32-IsValid opts_bytes bit_count s v
  perform-IsValid (register config token) s v = add_eim-IsValid config token s v
  perform-IsValid (unregister eim_id) s v = delete_eim-IsValid eim_id s v
  perform-IsValid (change eim_id config) s v = update_eim-IsValid eim_id config s v
  perform-IsValid (register_initial configs) s v = add_initial_eim-IsValid configs s v
  perform-IsValid (load_iot pkg) s v = load_euicc_package-IsValid pkg s v
