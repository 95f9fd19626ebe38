-- ===== src/Es10bIot.antt =====
-- app/es10/es10b_iot.py: eIM associations and the eUICC packages of SGP.32. The random token that
-- `os.urandom` gives an association is an argument of the operation that draws it.
pub mod Certs
pub mod Package
pub mod Psmo
pub mod Replay
pub mod Register
pub mod Eims
use euicc_simulator.Prelude.{
  ℕ, zero, suc, ◌+◌, ◌-◌, ◌*◌, ◌/◌, ◌%◌, ◌≡◌, Bool, true, false, not, ◌&&◌, ◌||◌, Option, none,
  some, List, [], ◌∷◌, ◌++◌, map, Bytes, Text, codes, bytes_eq, hex, fromhex, truthy, default,
  find_ref, update_at, pop_at, leb, ◌==◌, if◌then◌else◌, length,
}
use euicc_simulator.Prelude.Int.{ℤ, pos, leb_ℤ}
use euicc_simulator.Euicc.{
  ProfileState, disabled, enabled, ProfileSlot, EimAssociation, has_id, EuiccState, is_enabled,
  find_profile_by_iccid, get_enabled_profile,
}
use euicc_simulator.Es10c.{with_state, set_state, without_profile}

-- A configuration: a dictionary of which every key is optional.
pub record EimConfig : Type 0 where
  pub eim_id : Option Text
  pub eim_fqdn : Option Text
  pub counter_value : Option ℤ
  pub supported_protocol : Option ℕ

-- What GetEimConfigurationData, ListEim and their SGP.32 form return: the fields of each entry.
unfoldable pub get_eim_configuration_data : EuiccState → List EimAssociation
get_eim_configuration_data s = map (λ a. a) s.eim_associations

abbrev pub find_eim : Text → EuiccState → Option (ℕ × EimAssociation)
find_eim eim_id s = find_ref (has_id eim_id) s.eim_associations

abbrev pub new_association : EimConfig → ℕ → EimAssociation
new_association config token = record {
  eim_id = default config.eim_id [];
  eim_fqdn = default config.eim_fqdn [];
  counter_value = default config.counter_value (pos 0);
  association_token = token;
  supported_protocol = default config.supported_protocol 0;
}

-- `addEimResult` and `associationToken`.
unfoldable pub add_eim : EimConfig → ℕ → EuiccState → (ℕ × Option ℕ) × EuiccState
add_eim config token s = elim (find_eim (default config.eim_id []) s) [
  | some found ↦ ((2, none), s)
  | none ↦ (
    (0, some token),
    record s { eim_associations = s.eim_associations ++ new_association config token ∷ [] },
  )
]

unfoldable pub delete_eim : Text → EuiccState → ℕ × EuiccState
delete_eim eim_id s = elim (find_eim eim_id s) [
  | none ↦ (1, s)
  | some (i, a) ↦
      if leb (length s.eim_associations) 1
      then (2, s)
      else (0, record s { eim_associations = pop_at i s.eim_associations })
]

-- The assignments of UpdateEim, each made if its key is there.
abbrev pub updated : EimConfig → EimAssociation → EimAssociation
updated config a = record a {
  eim_fqdn = default config.eim_fqdn a.eim_fqdn;
  counter_value = default config.counter_value a.counter_value;
  supported_protocol = default config.supported_protocol a.supported_protocol;
}

unfoldable pub update_eim : Text → EimConfig → EuiccState → ℕ × EuiccState
update_eim eim_id config s = elim (find_eim eim_id s) [
  | none ↦ (1, s)
  | some (i, a) ↦
      (0, record s { eim_associations = update_at i (updated config) s.eim_associations })
]

-- One entry of the answer to AddInitialEim.
pub data InitialResult : Type 0 where
  association_token : ℕ → InitialResult
  add_ok : InitialResult

abbrev initial_result : ℕ × Option ℕ → InitialResult
initial_result (code, token) = if code == 0 then association_token (default token 0) else add_ok

unfoldable pub add_initial_eim : List (EimConfig × ℕ) → EuiccState → List InitialResult × EuiccState
add_initial_eim [] s = ([], s)
add_initial_eim ((config, token) ∷ rest) s =
    let (r, s') = add_eim config token s in
    let (rs, s'') = add_initial_eim rest s' in (initial_result r ∷ rs, s'')

unfoldable pub list_eim_data : EuiccState → List EimAssociation
unfolding get_eim_configuration_data
list_eim_data s = get_eim_configuration_data s

unfoldable pub get_eim_config_sgp32 : EuiccState → List EimAssociation
get_eim_config_sgp32 s = map (λ a. a) s.eim_associations
