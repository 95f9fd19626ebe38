-- ===== src/Es10bIot/Package.antt =====
-- app/es10/es10b_iot.py: LoadEuiccPackage, its profile operations (PSMO) and eIM operations (eCO).
use euicc_simulator.Prelude.{
  ℕ, ◌+◌, ◌*◌, ◌/◌, ◌%◌, not, Option, none, some, List, [], ◌∷◌, map, Bytes, Text, hex, fromhex,
  truthy, default, update_at, if◌then◌else◌,
}
use euicc_simulator.Prelude.Int.{ℤ, pos, leb_ℤ}
use euicc_simulator.Euicc.{
  ProfileState, disabled, enabled, ProfileSlot, EimAssociation, EuiccState, is_enabled,
  find_profile_by_iccid, get_enabled_profile,
}
use euicc_simulator.Es10c.{set_state, without_profile}
use euicc_simulator.Es10bIot.{
  EimConfig, find_eim, add_eim, delete_eim, update_eim, get_eim_configuration_data,
}

pub data PsmoAction : Type 0 where
  enable disable delete list_profile_info get_rat : PsmoAction
  other : Text → PsmoAction

-- The `iccid` entry: absent, bytes, or hexadecimal text.
pub data PsmoIccid : Type 0 where
  missing : PsmoIccid
  raw : Bytes → PsmoIccid
  hex_text : Text → PsmoIccid

pub record Psmo : Type 0 where
  pub action : PsmoAction
  pub iccid : PsmoIccid

-- `(b >> 4) | ((b & 0x0F) << 4)` of a byte.
unfoldable pub swap_nibbles : ℕ → ℕ
swap_nibbles b = b / 16 + b % 16 * 16

abbrev swap_all : Option Bytes → Option Bytes
swap_all none = none
swap_all (some b) = some (map swap_nibbles b)

-- The ICCID in storage form; text that is not hexadecimal gives `None`.
unfoldable pub psmo_iccid : PsmoIccid → Option Bytes
psmo_iccid missing = none
psmo_iccid (raw b) = some b
psmo_iccid (hex_text t) = swap_all (fromhex t)

abbrev iccid_hex : Option Bytes → Text
iccid_hex none = []
iccid_hex (some b) = hex b

pub record ProfileSummary : Type 0 where
  pub iccid : Text
  pub state : ProfileState
  pub name : Text
  pub sp_name : Text

abbrev pub summary : ProfileSlot → ProfileSummary
summary p = record {
  iccid = hex p.iccid;
  state = p.state;
  name = p.profile_name;
  sp_name = p.service_provider_name;
}

-- The `result` entry with what stands beside it.
pub data PsmoResult : Type 0 where
  iccid_not_found already_enabled not_enabled must_disable_first unknown_action : PsmoResult
  ok : Text → PsmoResult
  ok_profiles : List ProfileSummary → PsmoResult
  ok_rat : PsmoResult

-- `find_profile_by_iccid(iccid) if iccid else None`.
abbrev pub find_psmo : Option Bytes → EuiccState → Option (ℕ × ProfileSlot)
find_psmo none s = none
find_psmo (some b) s = if truthy b then find_profile_by_iccid s b else none

abbrev pub psmo_disable_current : Option (ℕ × ProfileSlot) → EuiccState → EuiccState
psmo_disable_current none s = s
psmo_disable_current (some (j, current)) s = set_state j disabled s

abbrev pub run_psmo : PsmoAction → Option Bytes → EuiccState → PsmoResult × EuiccState
run_psmo enable iccid s = elim (find_psmo iccid s) [
  | none ↦ (iccid_not_found, s)
  | some (i, profile) ↦ if is_enabled profile then (already_enabled, s) else (
    ok (iccid_hex iccid),
    set_state i enabled (psmo_disable_current (get_enabled_profile s) s),
  )
]
run_psmo disable iccid s = elim (find_psmo iccid s) [
  | none ↦ (iccid_not_found, s)
  | some (i, profile) ↦
      if not (is_enabled profile)
      then (not_enabled, s)
      else (ok (iccid_hex iccid), set_state i disabled s)
]
run_psmo delete iccid s = elim (find_psmo iccid s) [
  | none ↦ (iccid_not_found, s)
  | some (i, profile) ↦
      if is_enabled profile
      then (must_disable_first, s)
      else (ok (iccid_hex iccid), without_profile profile s)
]
run_psmo list_profile_info iccid s = (ok_profiles (map summary s.profiles), s)
run_psmo get_rat iccid s = (ok_rat, s)
run_psmo (other name) iccid s = (unknown_action, s)

unfoldable pub execute_psmo : Psmo → EuiccState → PsmoResult × EuiccState
unfolding psmo_iccid
execute_psmo op s = run_psmo op.action (psmo_iccid op.iccid) s

-- An eIM operation; `add` carries the token that it will draw.
pub data Eco : Type 0 where
  add : EimConfig → ℕ → Eco
  remove : Option Text → Eco
  update : Option Text → EimConfig → Eco
  list_eim : Eco
  other : Text → Eco

pub data EcoResult : Type 0 where
  added : ℕ × Option ℕ → EcoResult
  removed updated : ℕ → EcoResult
  listed : List EimAssociation → EcoResult
  unknown_eco : EcoResult

unfoldable pub execute_eco : Eco → EuiccState → EcoResult × EuiccState
unfolding add_eim delete_eim update_eim get_eim_configuration_data
execute_eco (add config token) s = let (r, s') = add_eim config token s in (added r, s')
execute_eco (remove eim_id) s = let (r, s') = delete_eim (default eim_id []) s in (removed r, s')
execute_eco (update eim_id config) s =
    let (r, s') = update_eim (default eim_id []) config s in (updated r, s')
execute_eco list_eim s = (listed (get_eim_configuration_data s), s)
execute_eco (other name) s = (unknown_eco, s)

unfoldable pub run_psmos : List Psmo → EuiccState → List PsmoResult × EuiccState
run_psmos [] s = ([], s)
run_psmos (op ∷ ops) s =
    let (r, s') = execute_psmo op s in let (rs, s'') = run_psmos ops s' in (r ∷ rs, s'')

unfoldable pub run_ecos : List Eco → EuiccState → List EcoResult × EuiccState
run_ecos [] s = ([], s)
run_ecos (op ∷ ops) s =
    let (r, s') = execute_eco op s in let (rs, s'') = run_ecos ops s' in (r ∷ rs, s'')

pub record Package : Type 0 where
  pub eim_id : Option Text
  pub counter_value : Option ℤ
  pub psmo_list : List Psmo
  pub eco_list : List Eco

pub data PackageResult : Type 0 where
  unknown_eim counter_mismatch : PackageResult
  results : List PsmoResult → List EcoResult → PackageResult

abbrev pub with_counter : ℤ → EimAssociation → EimAssociation
with_counter c a = record a { counter_value = c }

abbrev pub accept : ℕ → ℤ → EuiccState → EuiccState
accept i c s = record s { eim_associations = update_at i (with_counter c) s.eim_associations }

unfoldable pub load_euicc_package : Package → EuiccState → PackageResult × EuiccState
load_euicc_package pkg s =
    let counter = default pkg.counter_value (pos 0) in
    elim (find_eim (default pkg.eim_id []) s) [
      | none ↦ (unknown_eim, s)
      | some (i, a) ↦
          if leb_ℤ counter a.counter_value
          then (counter_mismatch, s)
          else (let (ps, s') = run_psmos pkg.psmo_list (accept i counter s) in
              let (es, s'') = run_ecos pkg.eco_list s' in (results ps es, s''))
    ]
