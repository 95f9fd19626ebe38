-- ===== src/Es10c/Reset.antt =====
-- app/es10/es10c.py: eUICCMemoryReset and its SGP.32 form.
use euicc_simulator.Prelude.{
  ℕ, ◌-◌, ◌*◌, ◌/◌, ◌%◌, Bool, true, false, not, ◌&&◌, Option, none, some, [], ◌∷◌, Bytes, has_bit,
  filter, sum_by, ◌==◌, if◌then◌else◌, length,
}
use euicc_simulator.Prelude.Int.{sub_ℕ}
use euicc_simulator.Prelude.Outcome.{Outcome, returned, raised}
use euicc_simulator.Euicc.{
  ProfileSlot, provisioning, test, operational, EuiccState, class_eq, is_enabled,
}
use euicc_simulator.Es10c.{profile_size}

-- What `reset_options` may hold: nothing, bytes, or the pair of bytes and a bit count by which
-- asn1tools stands for a BIT STRING.
pub data ResetOptions : Type 0 where
  absent : ResetOptions
  octets : Bytes → ResetOptions
  bit_string : Bytes → ℕ → ResetOptions

pub record ResetFlags : Type 0 where
  pub delete_operational : Bool
  pub delete_test : Bool
  pub reset_address : Bool

abbrev pub all_flags : ResetFlags
all_flags = record { delete_operational = true; delete_test = true; reset_address = true }

-- `flags = reset_options[0]` is a number for bytes. For a pair it is the bytes, and `flags & 0x80`
-- raises a TypeError.
abbrev pub reset_flags : ResetOptions → Outcome ResetFlags
reset_flags absent = returned all_flags
reset_flags (octets []) = returned all_flags
reset_flags (octets (flags ∷ _)) = returned (record {
  delete_operational = has_bit flags 0x80;
  delete_test = has_bit flags 0x40;
  reset_address = has_bit flags 0x20;
})
reset_flags (bit_string _ _) = raised

-- The body of the loop that fills `profiles_to_keep`.
abbrev pub is_kept : ResetFlags → ProfileSlot → Bool
is_kept f p =
    if is_enabled p
    then true
    else if class_eq p.profile_class provisioning
    then true
    else if class_eq p.profile_class test && not f.delete_test
    then true
    else class_eq p.profile_class operational && not f.delete_operational

abbrev pub run_reset : ResetFlags → EuiccState → ℕ × EuiccState
run_reset f s =
    let kept = filter (is_kept f) s.profiles in
    let deleted_count = length s.profiles - length kept in
    let address = if f.reset_address then [] else s.default_smdp_address in
    let used = sum_by profile_size kept in
    if deleted_count == 0 && not f.reset_address
    then (1, record s { profiles = kept; default_smdp_address = address })
    else (
      0,
      record s {
        profiles = kept;
        default_smdp_address = address;
        free_nvm = sub_ℕ s.total_nvm used;
      },
    )

unfoldable pub euicc_memory_reset : ResetOptions → EuiccState → Outcome ℕ × EuiccState
euicc_memory_reset options s = elim (reset_flags options) [
  | raised ↦ (raised, s)
  | returned f ↦ let (code, s') = run_reset f s in (returned code, s')
]

pub record ResetResponse : Type 0 where
  pub reset_result : ℕ
  pub reset_eim_result : Option ℕ
  pub reset_auto_enable_config_result : Option ℕ

abbrev first_flags : Bytes → ℕ
first_flags [] = 0
first_flags (flags ∷ _) = flags

-- The argument of the inner call: the upper three bits, as a pair, or `None`.
abbrev pub inner_options : Bytes → ResetOptions
inner_options [] = absent
inner_options (flags ∷ _) = bit_string (flags / 32 % 8 * 32 ∷ []) 3

abbrev clear_eims : Bool → EuiccState → EuiccState
clear_eims true s = record s { eim_associations = [] }
clear_eims false s = s

unfoldable pub euicc_memory_reset_sgp32 :
    Bytes → ℕ → EuiccState → Outcome ResetResponse × EuiccState
unfolding euicc_memory_reset
euicc_memory_reset_sgp32 opts_bytes bit_count s =
    let flags = first_flags opts_bytes in
    let (outcome, s') = euicc_memory_reset (inner_options opts_bytes) s in
    elim outcome [
      | raised ↦ (raised, s')
      | returned code ↦ (
        returned (record {
          reset_result = code;
          reset_eim_result =
              if has_bit flags 0x10 then some 0 else (if code == 1 then some 1 else none);
          reset_auto_enable_config_result = if has_bit flags 0x08 then some 0 else none;
        }),
        clear_eims (has_bit flags 0x10) s',
      )
    ]
