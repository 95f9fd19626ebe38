-- ===== src/Simulator/Footprint.antt =====
-- The memory of app/models/euicc.py: which calls of the handlers of app/es10 leave it alone. The
-- features are the fields that no handler assigns to.
use euicc_simulator.Prelude.{
  ℕ, ◌≡◌, refl, sym, ◌∙◌, subst, none, some, Option, List, [], ◌∷◌, Bytes, Text, inl, inr, arith,
  default, Option-cases, Bool-cases, sum_by, sum_by-update_at_same,
}
use euicc_simulator.Euicc.{
  find_profile_by_iccid, is_enabled, ProfileState, enabled, disabled, Version, ProfileSlot,
  DownloadSession, EuiccState, Operation, add_notification, get_enabled_profile,
}
use euicc_simulator.Es10b.Engine.{Engine}
use euicc_simulator.Es10b.Notifications.{remove_notification, cancel_in, cancel_session}
use euicc_simulator.Es10b.Frame.{OnlySession}
use euicc_simulator.Es10bIot.{EimConfig, add_eim, delete_eim, update_eim, add_initial_eim}
use euicc_simulator.Es10bIot.Package.{Eco, execute_eco, run_ecos, psmo_disable_current}
use euicc_simulator.Es10c.{
  profile_size, with_state, set_state, disable_current, select_profile, enable_profile,
  disable_profile, set_nickname, roll_back,
}

pub record Features : Type 0 where
  pub eid : Text
  pub svn : Version
  pub profile_version : Version
  pub firmware_version : Version
  pub iot_version : Version
  pub total_nvm : ℕ
  pub total_volatile : ℕ
  pub free_volatile : ℕ
  pub max_profiles : ℕ

abbrev pub features : EuiccState → Features
features s = record {
  eid = s.eid;
  svn = s.svn;
  profile_version = s.profile_version;
  firmware_version = s.firmware_version;
  iot_version = s.iot_version;
  total_nvm = s.total_nvm;
  total_volatile = s.total_volatile;
  free_volatile = s.free_volatile;
  max_profiles = s.max_profiles;
}

-- The bytes that the profiles of a state count for.
abbrev pub used_nvm : EuiccState → ℕ
used_nvm s = sum_by profile_size s.profiles

pub record SameMemory (s t : EuiccState) : Type 0 where
  pub same_features : features t ≡ features s
  pub same_free : t.free_nvm ≡ s.free_nvm
  pub same_used : used_nvm t ≡ used_nvm s

pub SameMemory-refl : (s : EuiccState) → SameMemory s s
SameMemory-refl s = record { same_features = refl; same_free = refl; same_used = refl }

pub SameMemory-trans : (s t u : EuiccState) → SameMemory s t → SameMemory t u → SameMemory s u
SameMemory-trans s t u h k = record {
  same_features = k.same_features ∙ h.same_features;
  same_free = k.same_free ∙ h.same_free;
  same_used = k.same_used ∙ h.same_used;
}

pub OnlySession-SameMemory : (s t : EuiccState) → OnlySession s t → SameMemory s t
OnlySession-SameMemory s t h =
    subst (SameMemory s) (sym h) record { same_features = refl; same_free = refl; same_used = refl }

pub add_notification-SameMemory :
    (operation : Operation) (address : Text) (iccid : Option Bytes) (s : EuiccState)
    → SameMemory s (add_notification operation address iccid s)
unfolding add_notification
add_notification-SameMemory operation address iccid s = record {
  same_features = refl;
  same_free = refl;
  same_used = refl;
}

pub set_state-SameMemory :
    (i : ℕ) (st : ProfileState) (s : EuiccState) → SameMemory s (set_state i st s)
set_state-SameMemory i st s = record {
  same_features = refl;
  same_free = refl;
  same_used = sum_by-update_at_same profile_size (with_state st) (λ p. refl) s.profiles i;
}

set_state_noted-SameMemory :
    (i : ℕ) (st : ProfileState) (operation : Operation) (address : Text) (iccid : Option Bytes)
    (s : EuiccState)
    → SameMemory s (add_notification operation address iccid (set_state i st s))
set_state_noted-SameMemory i st operation address iccid s =
    SameMemory-trans s _ _ (set_state-SameMemory i st s)
      (add_notification-SameMemory operation address iccid (set_state i st s))

disable_current-SameMemory :
    (o : Option (ℕ × ProfileSlot)) (s : EuiccState) → SameMemory s (disable_current o s)
disable_current-SameMemory none s = SameMemory-refl s
disable_current-SameMemory (some (j, p)) s = set_state_noted-SameMemory j disabled _ _ _ s

pub psmo_disable_current-SameMemory :
    (o : Option (ℕ × ProfileSlot)) (s : EuiccState) → SameMemory s (psmo_disable_current o s)
psmo_disable_current-SameMemory none s = SameMemory-refl s
psmo_disable_current-SameMemory (some (j, p)) s = set_state-SameMemory j disabled s

pub enable_profile-SameMemory :
    (iccid aid : Option Bytes) (s : EuiccState) → SameMemory s (enable_profile iccid aid s).1
unfolding enable_profile
enable_profile-SameMemory iccid aid s = elim (Option-cases (select_profile iccid aid s)) [
  | inl e ↦ rw (enable_profile, e) (SameMemory-refl s)
  | inr ((i, p), e) ↦ elim (Bool-cases (is_enabled p)) [
    | inl on ↦ rw (enable_profile, e, on) (SameMemory-refl s)
    | inr off ↦
        rw (enable_profile, e, off)
          (SameMemory-trans s _ _ (disable_current-SameMemory (get_enabled_profile s) s)
            (set_state_noted-SameMemory i enabled _ _ _ _))
  ]
]

pub disable_profile-SameMemory :
    (iccid aid : Option Bytes) (s : EuiccState) → SameMemory s (disable_profile iccid aid s).1
unfolding disable_profile
disable_profile-SameMemory iccid aid s = elim (Option-cases (select_profile iccid aid s)) [
  | inl e ↦ rw (disable_profile, e) (SameMemory-refl s)
  | inr ((i, p), e) ↦ elim (Bool-cases (is_enabled p)) [
    | inr off ↦ rw (disable_profile, e, off) (SameMemory-refl s)
    | inl on ↦ rw (disable_profile, e, on) (set_state_noted-SameMemory i disabled _ _ _ s)
  ]
]

pub set_nickname-SameMemory :
    (iccid : Bytes) (name : Text) (s : EuiccState) → SameMemory s (set_nickname iccid name s).1
unfolding set_nickname
set_nickname-SameMemory iccid name s = elim (Option-cases (find_profile_by_iccid s iccid)) [
  | inl e ↦ rw (set_nickname, e) (SameMemory-refl s)
  | inr ((i, p), e) ↦
      let named = λ (q : ProfileSlot). record q { profile_nickname = name } in
      rw (set_nickname, e)
        record {
          same_features = refl;
          same_free = refl;
          same_used = sum_by-update_at_same profile_size named (λ q. refl) s.profiles i;
        }
]

pub roll_back-SameMemory :
    (o : Option DownloadSession) (s : EuiccState) → SameMemory s (roll_back o s).1
roll_back-SameMemory none s = SameMemory-refl s
roll_back-SameMemory (some d) s = record {
  same_features = refl;
  same_free = refl;
  same_used = refl;
}

cancel_in-SameMemory :
    (e : Engine) (tid : Bytes) (reason : ℕ) (o : Option DownloadSession) (s : EuiccState)
    → SameMemory s (cancel_in e tid reason o s).1
unfolding cancel_in
cancel_in-SameMemory e tid reason none s = SameMemory-refl s
cancel_in-SameMemory e tid reason (some d) s = ground arith

pub cancel_session-SameMemory :
    (e : Engine) (tid : Bytes) (reason : ℕ) (s : EuiccState)
    → SameMemory s (cancel_session e tid reason s).1
unfolding cancel_session
cancel_session-SameMemory e tid reason s = cancel_in-SameMemory e tid reason s.active_session s

pub remove_notification-SameMemory :
    (n : ℕ) (s : EuiccState) → SameMemory s (remove_notification n s).1
unfolding remove_notification
remove_notification-SameMemory n s = ground arith

pub add_eim-SameMemory :
    (config : EimConfig) (token : ℕ) (s : EuiccState) → SameMemory s (add_eim config token s).1
unfolding add_eim
add_eim-SameMemory config token s = ground arith

pub delete_eim-SameMemory : (id : Text) (s : EuiccState) → SameMemory s (delete_eim id s).1
unfolding delete_eim
delete_eim-SameMemory id s = ground arith

pub update_eim-SameMemory :
    (id : Text) (config : EimConfig) (s : EuiccState) → SameMemory s (update_eim id config s).1
unfolding update_eim
update_eim-SameMemory id config s = ground arith

pub add_initial_eim-SameMemory :
    (cs : List (EimConfig × ℕ)) (s : EuiccState) → SameMemory s (add_initial_eim cs s).1
unfolding add_initial_eim
add_initial_eim-SameMemory [] s = SameMemory-refl s
add_initial_eim-SameMemory ((config, token) ∷ cs) s =
    SameMemory-trans s _ _ (add_eim-SameMemory config token s)
      (add_initial_eim-SameMemory cs (add_eim config token s).1)

execute_eco-SameMemory : (op : Eco) (s : EuiccState) → SameMemory s (execute_eco op s).1
unfolding execute_eco
execute_eco-SameMemory (Eco.add config token) s = add_eim-SameMemory config token s
execute_eco-SameMemory (Eco.remove id) s = delete_eim-SameMemory (default id []) s
execute_eco-SameMemory (Eco.update id config) s = update_eim-SameMemory (default id []) config s
execute_eco-SameMemory Eco.list_eim s = SameMemory-refl s
execute_eco-SameMemory (Eco.other name) s = SameMemory-refl s

pub run_ecos-SameMemory : (ops : List Eco) (s : EuiccState) → SameMemory s (run_ecos ops s).1
unfolding run_ecos
run_ecos-SameMemory [] s = SameMemory-refl s
run_ecos-SameMemory (op ∷ ops) s =
    SameMemory-trans s _ _ (execute_eco-SameMemory op s)
      (run_ecos-SameMemory ops (execute_eco op s).1)
