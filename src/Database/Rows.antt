-- ===== src/Database/Rows.antt =====
-- app/models/database.py: the rows of the tables, what a state is written as, and what rows are read as.
use euicc_simulator.Prelude.{
  ◌>>=◌, ℕ, zero, suc, ◌+◌, ◌-◌, ◌*◌, ◌/◌, ◌%◌, ◌&&◌, Option, none, some, List, [], ◌∷◌, ◌++◌,
  Bytes, Text, codes, ltb, leb, ◌==◌, if◌then◌else◌,
}
use euicc_simulator.Prelude.Int.{ℤ}
use euicc_simulator.Euicc.{
  ProfileState, disabled, enabled, ProfileClass, test, provisioning, operational, ProfileSlot,
  EimAssociation, Version, EuiccState, new_euicc,
}
use euicc_simulator.Manager.{state_of, class_of}

pub record DbEuicc : Type 0 where
  pub eid : Text
  pub svn : Text
  pub profile_version : Text
  pub firmware_version : Text
  pub platform_label : Text
  pub ipa_mode : ℕ
  pub iot_version : Text
  pub total_nvm : ℕ
  pub free_nvm : ℤ
  pub default_smdp_address : Text
  pub root_ds_address : Text
  pub max_profiles : ℕ
  pub notification_seq : ℕ

pub record DbProfile : Type 0 where
  pub euicc_eid : Text
  pub iccid : Bytes
  pub isdp_aid : Bytes
  pub state : Text
  pub profile_name : Text
  pub service_provider_name : Text
  pub profile_nickname : Text
  pub profile_class : Text
  pub notification_address : Text
  pub policy_rules : Bytes
  pub profile_data : Bytes

pub record DbEimAssociation : Type 0 where
  pub euicc_eid : Text
  pub eim_id : Text
  pub eim_fqdn : Text
  pub counter_value : ℤ
  pub association_token : ℕ
  pub supported_protocol : ℕ

-- The digits of `f"{n}"`, with fuel for the divisions.
abbrev pub decimal_digits : ℕ → ℕ → Text
decimal_digits zero n = []
decimal_digits (suc fuel) n =
    let more = decimal_digits fuel (n / 10) in
    if ltb n 10 then (48 + n) ∷ [] else more ++ (48 + n % 10) ∷ []

abbrev pub decimal : ℕ → Text
decimal n = decimal_digits (n + 1) n

unfoldable pub format_version : Version → Text
format_version (a, b, c) = decimal a ++ (b'.' ∷ (decimal b ++ (b'.' ∷ decimal c)))

-- `s.split(".")`.
abbrev pub cons_part : ℕ → List Text → List Text
cons_part c [] = (c ∷ []) ∷ []
cons_part c (part ∷ parts) = (c ∷ part) ∷ parts

unfoldable pub split_dots : Text → List Text
split_dots [] = [] ∷ []
split_dots (c ∷ cs) = if c == b'.' then [] ∷ split_dots cs else cons_part c (split_dots cs)

-- `int(s)` of decimal digits; `none` is the ValueError. Signs, spaces and underscores, which `int`
-- reads too, are in no version that is written, and are not read here.
abbrev pub int_from : ℕ → Text → Option ℕ
int_from acc [] = some acc
int_from acc (c ∷ cs) =
    let rest = int_from (acc * 10 + (c - 48)) cs in if leb b'0' c && leb c b'9' then rest else none

abbrev pub int_of : Text → Option ℕ
int_of [] = none
int_of (c ∷ cs) = int_from 0 (c ∷ cs)

-- `none` is the ValueError, or the IndexError of a missing part.
abbrev pub version_of : List Text → Option Version
version_of (a ∷ b ∷ c ∷ more) = do
  major ← int_of a
  minor ← int_of b
  patch ← int_of c
  some (major, minor, patch)
version_of _ = none

unfoldable pub parse_version : Text → Option Version
unfolding split_dots
parse_version s = version_of (split_dots s)

-- `p.state.value` and `p.profile_class.value`.
abbrev pub state_value : ProfileState → Text
state_value disabled = codes "disabled"
state_value enabled = codes "enabled"

abbrev pub class_value : ProfileClass → Text
class_value test = codes "test"
class_value provisioning = codes "provisioning"
class_value operational = codes "operational"

abbrev pub euicc_row : Text → EuiccState → DbEuicc
euicc_row eid s = record {
  eid = eid;
  svn = format_version s.svn;
  profile_version = format_version s.profile_version;
  firmware_version = format_version s.firmware_version;
  platform_label = s.platform_label;
  ipa_mode = s.ipa_mode;
  iot_version = format_version s.iot_version;
  total_nvm = s.total_nvm;
  free_nvm = s.free_nvm;
  default_smdp_address = s.default_smdp_address;
  root_ds_address = s.root_ds_address;
  max_profiles = s.max_profiles;
  notification_seq = s.notification_seq;
}

abbrev pub profile_row : Text → ProfileSlot → DbProfile
profile_row eid p = record {
  euicc_eid = eid;
  iccid = p.iccid;
  isdp_aid = p.isdp_aid;
  state = state_value p.state;
  profile_name = p.profile_name;
  service_provider_name = p.service_provider_name;
  profile_nickname = p.profile_nickname;
  profile_class = class_value p.profile_class;
  notification_address = p.notification_address;
  policy_rules = p.policy_rules;
  profile_data = p.profile_data;
}

abbrev pub association_row : Text → EimAssociation → DbEimAssociation
association_row eid a = record {
  euicc_eid = eid;
  eim_id = a.eim_id;
  eim_fqdn = a.eim_fqdn;
  counter_value = a.counter_value;
  association_token = a.association_token;
  supported_protocol = a.supported_protocol;
}

abbrev pub profile_of : DbProfile → Option ProfileSlot
profile_of r = do
  state ← state_of r.state
  profile_class ← class_of r.profile_class
  some record {
    iccid = r.iccid;
    isdp_aid = r.isdp_aid;
    state = state;
    profile_name = r.profile_name;
    service_provider_name = r.service_provider_name;
    profile_nickname = r.profile_nickname;
    profile_class = profile_class;
    notification_address = r.notification_address;
    policy_rules = r.policy_rules;
    profile_data = r.profile_data;
  }

-- The loop over the profiles of a row.
abbrev pub profiles_of : List DbProfile → Option (List ProfileSlot)
profiles_of [] = some []
profiles_of (r ∷ rs) = do p ← profile_of r; ps ← profiles_of rs; some (p ∷ ps)

abbrev pub associations_of : List DbEimAssociation → List EimAssociation
associations_of [] = []
associations_of (r ∷ rs) =
    record {
      eim_id = r.eim_id;
      eim_fqdn = r.eim_fqdn;
      counter_value = r.counter_value;
      association_token = r.association_token;
      supported_protocol = r.supported_protocol;
    }
    ∷ associations_of rs

-- The state that a row is loaded as; what the table does not hold has its default.
unfoldable pub euicc_of : DbEuicc → List DbProfile → List DbEimAssociation → Option EuiccState
euicc_of r prs ars = do
  svn ← parse_version r.svn
  profile_version ← parse_version r.profile_version
  firmware_version ← parse_version r.firmware_version
  iot_version ← parse_version r.iot_version
  profiles ← profiles_of prs
  some record (new_euicc r.eid) {
    svn = svn;
    profile_version = profile_version;
    firmware_version = firmware_version;
    platform_label = r.platform_label;
    ipa_mode = r.ipa_mode;
    iot_version = iot_version;
    total_nvm = r.total_nvm;
    free_nvm = r.free_nvm;
    default_smdp_address = r.default_smdp_address;
    root_ds_address = r.root_ds_address;
    profiles = profiles;
    max_profiles = r.max_profiles;
    eim_associations = associations_of ars;
    notification_seq = r.notification_seq;
  }
