-- ===== src/Manager.antt =====
-- app/services/euicc_manager.py: the instances, by EID. What initialises the PKI of an eUICC is a
-- parameter, `none` being an exception. Iccid and Instances hold what the operations do.
mod Initial
pub mod Iccid
pub mod Entries
pub mod Created
pub mod Instances
unfoldable pub use Initial.*
use euicc_simulator.Prelude.{
  ◌>>=◌, ℕ, zero, suc, ◌*◌, Bool, true, false, not, Option, none, some, List, [], ◌∷◌, ◌++◌, map,
  Text, codes, bytes_eq, filter, if◌then◌else◌, length,
}
use euicc_simulator.Prelude.Int.{ℤ}
use euicc_simulator.Prelude.Outcome.{Outcome, returned, raised}
use euicc_simulator.Euicc.{ProfileSlot, Version, EuiccState, get_enabled_profile, iccid_string}
use euicc_simulator.Es10b.Engine.{Engine}
use euicc_simulator.Services.ApduHandler.{ApduProcessor, new_processor}

-- An `EuiccInstance`: its handlers hold nothing but the state and the PKI.
pub record EuiccInstance : Type 0 where
  pub euicc : EuiccState
  pub pki : Engine
  pub apdu : ApduProcessor

abbrev pub new_instance : EuiccState → Engine → EuiccInstance
new_instance s e = record { euicc = s; pki = e; apdu = new_processor }

-- `self.instances`, in the order of insertion.
abbrev pub Instances : Type 0
Instances = List (Text × EuiccInstance)

-- `self.instances.get(eid)`.
unfoldable pub get_euicc : Text → Instances → Option EuiccInstance
get_euicc eid [] = none
get_euicc eid ((key, i) ∷ rest) = if bytes_eq key eid then some i else get_euicc eid rest

-- The instance of an EID, changed in place.
unfoldable pub put_instance : Text → EuiccInstance → Instances → Instances
put_instance eid i [] = []
put_instance eid i ((key, j) ∷ rest) =
    if bytes_eq key eid then (key, i) ∷ rest else (key, j) ∷ put_instance eid i rest

-- The PKI is initialised and the instance stored; `none` is an exception before that.
abbrev pub stored :
    Text → Option EuiccState → Option Engine → Instances → Outcome EuiccInstance × Instances
stored eid none pki instances = (raised, instances)
stored eid (some s) none instances = (raised, instances)
stored eid (some s) (some e) instances =
    (returned (new_instance s e), instances ++ (eid, new_instance s e) ∷ [])

module _ (initialize : Text → Option Engine) where
  unfoldable pub create_euicc :
      Text
      → Text
      → Option Text
      → Option Text
      → List Preload
      → Instances
      → Outcome EuiccInstance × Instances
  create_euicc eid address eim_id eim_fqdn preloads instances = elim (get_euicc eid instances) [
    | some i ↦ (returned i, instances)
    | none ↦
        stored eid (preload address preloads (created_state eid address eim_id eim_fqdn))
          (initialize eid) instances
  ]

  unfoldable pub create_euicc_from_state :
      EuiccState → Instances → Outcome EuiccInstance × Instances
  create_euicc_from_state s instances = elim (get_euicc s.eid instances) [
    | some i ↦ (returned i, instances)
    | none ↦ stored s.eid (some s) (initialize s.eid) instances
  ]

  -- One creation behind another: an exception ends the function.
  abbrev pub and_then :
      Outcome EuiccInstance × Instances
      → (Instances → Outcome Bool × Instances)
      → Outcome Bool × Instances
  and_then (raised, instances) next = (raised, instances)
  and_then (returned i, instances) next = next instances

  abbrev pub sample_profile : Text → Text → Text → Preload
  sample_profile iccid name state = record {
    iccid = some iccid;
    name = some name;
    sp_name = some (codes "ConnectX IoT");
    state = some state;
    profile_class = some (codes "operational");
  }

  unfoldable pub create_test_euiccs : Text → Text → Instances → Outcome Bool × Instances
  unfolding create_euicc
  create_test_euiccs smdp_address eim_fqdn instances =
      and_then
        (create_euicc (codes "89049032123451234512345678901235") smdp_address
          (some (codes "EIM-89049032123451234512345678901235")) (some eim_fqdn)
          (sample_profile (codes "8901234567890123456F") (codes "ConnectX IoT Profile 1")
              (codes "enabled")
            ∷ sample_profile (codes "8901234567890123457F") (codes "ConnectX IoT Profile 2")
                (codes "disabled")
            ∷ [])
          instances)
        (λ second.
          and_then
            (create_euicc (codes "89049032123451234512345678901236") smdp_address
              (some (codes "EIM-89049032123451234512345678901236")) (some eim_fqdn) [] second)
            (λ third.
              and_then
                (create_euicc (codes "89049032123451234512345678901237") smdp_address none none []
                  third)
                (λ done. (returned true, done))))

unfoldable pub delete_euicc : Text → Instances → Bool × Instances
delete_euicc eid instances = elim (get_euicc eid instances) [
  | none ↦ (false, instances)
  | some i ↦ (true, filter (λ entry. not (bytes_eq entry.0 eid)) instances)
]

pub record EuiccSummary : Type 0 where
  pub eid : Text
  pub profiles : ℕ
  pub enabled_profile : Option Text
  pub eim_associations : ℕ
  pub free_nvm : ℤ
  pub firmware_version : Version
  pub has_active_session : Bool

abbrev pub enabled_iccid : Option (ℕ × ProfileSlot) → Option Text
enabled_iccid none = none
enabled_iccid (some (i, p)) = some (iccid_string p)

abbrev pub is_some {ℓ} : {A : Type ℓ} → Option A → Bool
is_some none = false
is_some (some a) = true

abbrev pub summary_of : Text × EuiccInstance → EuiccSummary
summary_of (eid, i) = record {
  eid = eid;
  profiles = length i.euicc.profiles;
  enabled_profile = enabled_iccid (get_enabled_profile i.euicc);
  eim_associations = length i.euicc.eim_associations;
  free_nvm = i.euicc.free_nvm;
  firmware_version = i.euicc.firmware_version;
  has_active_session = is_some i.euicc.active_session;
}

-- The firmware version is left as its three numbers.
unfoldable pub list_euiccs : Instances → List EuiccSummary
list_euiccs instances = map summary_of instances
