-- ===== src/Es10c.antt =====
-- app/es10/es10c.py: local profile management. A method returns the number of its result field and
-- the new state.
pub mod Reset
pub mod Memory
pub mod Delete
pub mod Enable
use euicc_simulator.Prelude.{
  ℕ, zero, suc, ◌+◌, ◌-◌, ◌*◌, ◌/◌, ◌%◌, Bool, true, false, not, ◌&&◌, ◌||◌, Option, none, some,
  List, [], ◌∷◌, map, Bytes, Text, hex, fromhex, truthy, given, has_bit, filter, update_at,
  remove_first, sum_by, ◌==◌, if◌then◌else◌, length,
}
use euicc_simulator.Prelude.Int.{ℤ, pos, sub_ℕ, ◌+ℤ◌}
use euicc_simulator.Prelude.Outcome.{Outcome, returned, raised}
use euicc_simulator.Euicc.{
  ProfileState, disabled, enabled, ProfileClass, test, provisioning, operational, ProfileSlot,
  DownloadSession, EuiccState, Operation, slot_eq, state_eq, class_eq, is_enabled, has_iccid,
  has_aid, get_enabled_profile, find_profile_by_iccid, find_profile_by_aid, add_notification,
}

-- The number of a class in `profileClass`, and the class of a number in the request's filter.
abbrev pub class_number : ProfileClass → ℕ
class_number test = 0
class_number provisioning = 1
class_number operational = 2

abbrev pub class_of_number : ℕ → Option ProfileClass
class_of_number zero = some test
class_of_number (suc zero) = some provisioning
class_of_number (suc (suc zero)) = some operational
class_of_number (suc (suc (suc n))) = none

pub record ProfileInfo : Type 0 where
  pub iccid : Text
  pub isdp_aid : Text
  pub profile_state : ℕ
  pub profile_name : Text
  pub service_provider_name : Text
  pub profile_class : ℕ
  pub profile_nickname : Option Text

unfoldable pub profile_info : ProfileSlot → ProfileInfo
profile_info p = record {
  iccid = hex p.iccid;
  isdp_aid = hex p.isdp_aid;
  profile_state = if is_enabled p then 1 else 0;
  profile_name = p.profile_name;
  service_provider_name = p.service_provider_name;
  profile_class = class_number p.profile_class;
  profile_nickname = if truthy p.profile_nickname then some p.profile_nickname else none;
}

abbrev of_class : Option ProfileClass → List ProfileSlot → List ProfileSlot
of_class none ps = ps
of_class (some c) ps = filter (λ p. class_eq p.profile_class c) ps

abbrev by_class : Option ℕ → List ProfileSlot → List ProfileSlot
by_class none ps = ps
by_class (some n) ps = of_class (class_of_number n) ps

abbrev by_aid : Option Bytes → Option ℕ → List ProfileSlot → List ProfileSlot
by_aid none c ps = by_class c ps
by_aid (some aid) c ps = if truthy aid then filter (has_aid aid) ps else by_class c ps

abbrev by_iccid : Option Bytes → Option Bytes → Option ℕ → List ProfileSlot → List ProfileSlot
by_iccid none aid c ps = by_aid aid c ps
by_iccid (some iccid) aid c ps =
    if truthy iccid then filter (has_iccid iccid) ps else by_aid aid c ps

unfoldable pub get_profiles_info :
    Option Bytes → Option Bytes → Option ℕ → EuiccState → List ProfileInfo
unfolding profile_info
get_profiles_info iccid aid profile_class s =
    map profile_info (by_iccid iccid aid profile_class s.profiles)

-- The lookup that EnableProfile, DisableProfile and DeleteProfile begin with: a non-empty ICCID
-- goes before the AID.
abbrev select_by_aid : Option Bytes → EuiccState → Option (ℕ × ProfileSlot)
select_by_aid none s = none
select_by_aid (some aid) s = if truthy aid then find_profile_by_aid s aid else none

unfoldable pub select_profile : Option Bytes → Option Bytes → EuiccState → Option (ℕ × ProfileSlot)
select_profile none aid s = select_by_aid aid s
select_profile (some iccid) aid s =
    if truthy iccid then find_profile_by_iccid s iccid else select_by_aid aid s

abbrev pub with_state : ProfileState → ProfileSlot → ProfileSlot
with_state st p = record p { state = st }

-- `p.state = st` for the profile at a position.
abbrev pub set_state : ℕ → ProfileState → EuiccState → EuiccState
set_state i st s = record s { profiles = update_at i (with_state st) s.profiles }

-- "Disable currently enabled profile", with its notification.
abbrev pub disable_current : Option (ℕ × ProfileSlot) → EuiccState → EuiccState
disable_current none s = s
disable_current (some (j, current)) s =
    add_notification Operation.disable current.notification_address (some current.iccid)
      (set_state j disabled s)

unfoldable pub enable_profile : Option Bytes → Option Bytes → EuiccState → ℕ × EuiccState
enable_profile iccid aid s = elim (select_profile iccid aid s) [
  | none ↦ (1, s)
  | some (i, profile) ↦ if is_enabled profile then (4, s) else (
    0,
    add_notification Operation.enable profile.notification_address (some profile.iccid)
        (set_state i enabled (disable_current (get_enabled_profile s) s)),
  )
]

unfoldable pub disable_profile : Option Bytes → Option Bytes → EuiccState → ℕ × EuiccState
disable_profile iccid aid s = elim (select_profile iccid aid s) [
  | none ↦ (1, s)
  | some (i, profile) ↦ if not (is_enabled profile) then (2, s) else (
    0,
    add_notification Operation.disable profile.notification_address (some profile.iccid)
        (set_state i disabled s),
  )
]

-- The memory that a profile counts for: its data, or 4096 bytes where there is none.
abbrev pub profile_size : ProfileSlot → ℕ
profile_size p = if truthy p.profile_data then length p.profile_data else 4096

abbrev pub without_profile : ProfileSlot → EuiccState → EuiccState
without_profile p s = record s { profiles = remove_first (λ q. slot_eq q p) s.profiles }

unfoldable pub delete_profile : Option Bytes → Option Bytes → EuiccState → ℕ × EuiccState
delete_profile iccid aid s = elim (select_profile iccid aid s) [
  | none ↦ (1, s)
  | some (i, profile) ↦ if is_enabled profile then (2, s) else (
    0,
    let s' = without_profile profile s in
        add_notification Operation.delete profile.notification_address (some profile.iccid)
          (record s' { free_nvm = s'.free_nvm +ℤ pos (profile_size profile) }),
  )
]

-- `none` is the ValueError of `fromhex`.
unfoldable pub get_eid : EuiccState → Option Bytes
get_eid s = fromhex s.eid

abbrev pub roll_back : Option DownloadSession → EuiccState → ℕ × EuiccState
roll_back none s = (7, s)
roll_back (some session) s = (0, record s { active_session = none })

unfoldable pub profile_rollback : EuiccState → ℕ × EuiccState
profile_rollback s = roll_back s.active_session s

unfoldable pub configure_auto_enable : EuiccState → ℕ × EuiccState
configure_auto_enable s = (0, s)

unfoldable pub enable_using_dd : EuiccState → ℕ × EuiccState
enable_using_dd s = (1, s)

unfoldable pub set_nickname : Bytes → Text → EuiccState → ℕ × EuiccState
set_nickname iccid nickname s = elim (find_profile_by_iccid s iccid) [
  | none ↦ (1, s)
  | some (i, profile) ↦ (
    0,
    record s { profiles = update_at i (λ p. record p { profile_nickname = nickname }) s.profiles },
  )
]
