-- ===== src/App/Endpoints.antt =====
-- The other endpoints of app/main.py: what they read of the eUICCs. `none` in place of the instances is
-- a manager that is not set up.
use euicc_simulator.Prelude.{ℕ, Bool, Option, none, some, List, [], map, Bytes, Text, hex, length}
use euicc_simulator.Prelude.Int.{ℤ}
use euicc_simulator.Euicc.{ProfileSlot, EimAssociation, iccid_string}
use euicc_simulator.Es10b.Engine.{EuiccInfo1}
use euicc_simulator.Es10b.Info.{get_euicc_info1, get_euicc_challenge}
use euicc_simulator.Es10c.{ProfileInfo, get_eid, get_profiles_info}
use euicc_simulator.Manager.{
  EuiccInstance, Instances, EuiccSummary, get_euicc, put_instance, is_some, list_euiccs,
}
use euicc_simulator.Database.{state_value, format_version}

pub data Reply {ℓ} (A : Type ℓ) : Type ℓ where
  not_initialized no_such_eid : Reply A
  ok : A → Reply A

abbrev pub found : Option EuiccInstance → Reply EuiccInstance
found none = no_such_eid
found (some i) = ok i

-- `_get_instance`.
unfoldable pub get_instance : Text → Option Instances → Reply EuiccInstance
unfolding get_euicc
get_instance eid none = not_initialized
get_instance eid (some instances) = found (get_euicc eid instances)

-- `list_euiccs`, of a manager that may not be there.
unfoldable pub listed : Option Instances → List EuiccSummary
unfolding list_euiccs
listed none = []
listed (some instances) = list_euiccs instances

pub record ProfileDetails : Type 0 where
  pub iccid : Text
  pub state : Text
  pub name : Text
  pub aid : Text

pub record EimDetails : Type 0 where
  pub eim_id : Text
  pub eim_fqdn : Text
  pub counter : ℤ

pub record EuiccDetails : Type 0 where
  pub eid : Text
  pub svn : Text
  pub profiles : List ProfileDetails
  pub eim_associations : List EimDetails
  pub notifications : ℕ
  pub has_active_session : Bool
  pub free_nvm : ℤ
  pub default_smdp : Text

abbrev pub profile_details : ProfileSlot → ProfileDetails
profile_details p = record {
  iccid = iccid_string p;
  state = state_value p.state;
  name = p.profile_name;
  aid = hex p.isdp_aid;
}

abbrev pub eim_details : EimAssociation → EimDetails
eim_details a = record { eim_id = a.eim_id; eim_fqdn = a.eim_fqdn; counter = a.counter_value }

abbrev pub details_of : EuiccInstance → EuiccDetails
details_of i = record {
  eid = i.euicc.eid;
  svn = format_version i.euicc.svn;
  profiles = map profile_details i.euicc.profiles;
  eim_associations = map eim_details i.euicc.eim_associations;
  notifications = length i.euicc.notifications;
  has_active_session = is_some i.euicc.active_session;
  free_nvm = i.euicc.free_nvm;
  default_smdp = i.euicc.default_smdp_address;
}

abbrev pub on_instance {ℓ} : {A : Type ℓ} → (EuiccInstance → A) → Reply EuiccInstance → Reply A
on_instance f not_initialized = not_initialized
on_instance f no_such_eid = no_such_eid
on_instance f (ok i) = ok (f i)

-- The endpoint `get_euicc`.
unfoldable pub euicc_details : Text → Option Instances → Reply EuiccDetails
unfolding get_instance
euicc_details eid manager = on_instance details_of (get_instance eid manager)

-- The endpoints for ES10 give byte strings in hexadecimal; here they are bytes. `none` is an exception.
unfoldable pub es10_euicc_info1 : Text → Option Instances → Reply (Option EuiccInfo1)
es10_euicc_info1 eid manager =
    on_instance (λ i. get_euicc_info1 i.pki i.euicc) (get_instance eid manager)

unfoldable pub es10_eid : Text → Option Instances → Reply (Option Bytes)
es10_eid eid manager = on_instance (λ i. get_eid i.euicc) (get_instance eid manager)

unfoldable pub es10_profiles : Text → Option Instances → Reply (List ProfileInfo)
es10_profiles eid manager =
    on_instance (λ i. get_profiles_info none none none i.euicc) (get_instance eid manager)

abbrev pub with_challenge : Text → Bytes → Reply EuiccInstance → Instances → Reply Bytes × Instances
with_challenge eid drawn not_initialized instances = (not_initialized, instances)
with_challenge eid drawn no_such_eid instances = (no_such_eid, instances)
with_challenge eid drawn (ok i) instances =
    let (challenge, s) = get_euicc_challenge drawn i.euicc in
    (ok challenge, put_instance eid (record i { euicc = s }) instances)

-- The endpoint that opens a session, like the command that it stands for.
unfoldable pub es10_challenge : Text → Bytes → Instances → Reply Bytes × Instances
unfolding get_euicc_challenge
es10_challenge eid drawn instances =
    with_challenge eid drawn (get_instance eid (some instances)) instances
