-- ===== src/Manager/Initial.antt =====
-- app/services/euicc_manager.py: the state that an eUICC is created with, and its preloaded profiles.
use euicc_simulator.Prelude.{
  ◌>>=◌, ℕ, ◌+◌, ◌-◌, ◌*◌, Option, none, some, List, [], ◌∷◌, ◌++◌, Bytes, Text, codes, bytes_eq,
  truthy, default, hex_value, if◌then◌else◌, length, replicate,
}
use euicc_simulator.Prelude.Int.{pos}
use euicc_simulator.Euicc.{
  ProfileState, disabled, enabled, ProfileClass, test, provisioning, operational, ProfileSlot,
  EimAssociation, EuiccState, new_euicc, allocate_isdp_aid,
}

-- `s.ljust(width, c)`.
abbrev pub ljust : ℕ → ℕ → Text → Text
ljust width c s = s ++ replicate (width - length s) c

-- `(int(low, 16) << 4) | int(high, 16)`; `none` is the ValueError of a character that is not a
-- hexadecimal digit.
abbrev pub bcd_byte : ℕ → ℕ → Option ℕ
bcd_byte high low = do l ← hex_value low; h ← hex_value high; some (l * 16 + h)

-- The loop, two characters at a time; a last one alone goes with an "F".
unfoldable pub bcd_pairs : Text → Option Bytes
bcd_pairs [] = some []
bcd_pairs (high ∷ []) = do b ← bcd_byte high b'F'; some (b ∷ [])
bcd_pairs (high ∷ low ∷ rest) = do b ← bcd_byte high low; bs ← bcd_pairs rest; some (b ∷ bs)

unfoldable pub string_to_bcd_iccid : Text → Option Bytes
string_to_bcd_iccid iccid = bcd_pairs (ljust 20 b'F' iccid)

-- A dictionary of `preloaded_profiles`, a missing key being `none`.
pub record Preload : Type 0 where
  pub iccid : Option Text
  pub name : Option Text
  pub sp_name : Option Text
  pub state : Option Text
  pub profile_class : Option Text

-- `ProfileState(…)` and `ProfileClass(…)`; `none` is the ValueError.
abbrev pub state_of : Text → Option ProfileState
state_of t =
    if bytes_eq t (codes "disabled")
    then some disabled
    else if bytes_eq t (codes "enabled")
    then some enabled
    else none

abbrev pub class_of : Text → Option ProfileClass
class_of t =
    if bytes_eq t (codes "test")
    then some test
    else if bytes_eq t (codes "provisioning")
    then some provisioning
    else if bytes_eq t (codes "operational")
    then some operational
    else none

unfoldable pub preloaded_slot : Text → Preload → EuiccState → Option ProfileSlot
preloaded_slot address p s = do
  iccid ← string_to_bcd_iccid (default p.iccid (codes "89000000000000000000"))
  isdp_aid ← allocate_isdp_aid s
  state ← state_of (default p.state (codes "disabled"))
  profile_class ← class_of (default p.profile_class (codes "operational"))
  some record {
    iccid = iccid;
    isdp_aid = isdp_aid;
    state = state;
    profile_name = default p.name (codes "Test Profile");
    service_provider_name = default p.sp_name (codes "ConnectX IoT");
    profile_nickname = [];
    profile_class = profile_class;
    notification_address = address;
    policy_rules = [];
    profile_data = [];
  }

-- The loop over `preloaded_profiles`.
unfoldable pub preload : Text → List Preload → EuiccState → Option EuiccState
preload address [] s = some s
preload address (p ∷ ps) s = do
  slot ← preloaded_slot address p s
  preload address ps (record s { profiles = s.profiles ++ slot ∷ [] })

-- The initial eIM association, if an identifier is given.
abbrev pub initial_eims : Option Text → Option Text → List EimAssociation
initial_eims none fqdn = []
initial_eims (some eim_id) fqdn =
    if truthy eim_id
    then record {
      eim_id = eim_id;
      eim_fqdn = default fqdn [];
      counter_value = pos 0;
      association_token = 0;
      supported_protocol = 0;
    }
      ∷ []
    else []

-- The state before the profiles.
abbrev pub created_state : Text → Text → Option Text → Option Text → EuiccState
created_state eid address eim_id eim_fqdn = record (new_euicc eid) {
  default_smdp_address = address;
  eim_associations = initial_eims eim_id eim_fqdn;
}
