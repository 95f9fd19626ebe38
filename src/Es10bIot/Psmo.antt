-- ===== src/Es10bIot/Psmo.antt =====
-- The profile operations of an eUICC package, `_execute_psmo` of app/es10/es10b_iot.py: validity,
-- and what they leave out beside ES10c.
use euicc_simulator.Prelude.{
  ℕ, ◌≤◌, ◌<◌, ◌≡◌, refl, sym, ◌∙◌, false, Option, none, some, [], ◌∷◌, inl, inr, Bytes, arith,
  find_ref, find_ref_lem, pop_at, get_elem?, length, truthy, remove_first, sum_by, sum_by-pop_at,
  count, if◌then◌else◌, Option-cases, Bool-cases,
}
use euicc_simulator.Prelude.Int.{pos, ◌+ℤ◌, ◌<ℤ◌, int_laws}
use euicc_simulator.Euicc.{
  ProfileSlot, EuiccState, add_notification, disabled, enabled, is_enabled, get_enabled_profile,
  slot_eq,
}
use euicc_simulator.Euicc.Valid.{IsValid}
use euicc_simulator.Es10c.{set_state, disable_current, select_profile, profile_size}
use euicc_simulator.Es10c.Enable.{
  select_profile_lem, count-set_state, count-disable_current, get_elem?-disable_current,
  IsValid-set_state,
}
use euicc_simulator.Es10c.Delete.{remove_selected, IsValid-deleted}
use euicc_simulator.Es10bIot.Package.{
  Psmo, PsmoAction, enable, disable, delete, list_profile_info, get_rat, other,
  psmo_disable_current, find_psmo, psmo_iccid, run_psmo, execute_psmo,
}

-- The lookup is that of ES10c with an ICCID and no AID.
find_psmo-eq :
    (iccid : Option Bytes) (s : EuiccState) → find_psmo iccid s ≡ select_profile iccid none s
unfolding select_profile
find_psmo-eq none s = refl
find_psmo-eq (some b) s = refl

pub find_psmo_lem :
    (iccid : Option Bytes) (s : EuiccState) (i : ℕ) (p : ProfileSlot)
    → find_psmo iccid s ≡ some (i, p)
    → get_elem? s.profiles i ≡ some p
find_psmo_lem iccid s i p h = select_profile_lem iccid none s i p (sym (find_psmo-eq iccid s) ∙ h)

same_profiles :
    (c : Option (ℕ × ProfileSlot)) (s : EuiccState)
    → (psmo_disable_current c s).profiles ≡ (disable_current c s).profiles
unfolding add_notification
same_profiles none s = refl
same_profiles (some (j, current)) s = refl

same_eims :
    (c : Option (ℕ × ProfileSlot)) (s : EuiccState)
    → (psmo_disable_current c s).eim_associations ≡ s.eim_associations
same_eims none s = refl
same_eims (some (j, current)) s = refl

run_psmo-eims :
    (action : PsmoAction) (iccid : Option Bytes) (s : EuiccState)
    → (run_psmo action iccid s).1.eim_associations ≡ s.eim_associations
run_psmo-eims enable iccid s = ground (arith, same_eims (get_enabled_profile s) s)
run_psmo-eims disable iccid s = ground arith
run_psmo-eims delete iccid s = ground arith
run_psmo-eims list_profile_info iccid s = refl
run_psmo-eims get_rat iccid s = refl
run_psmo-eims (other name) iccid s = refl

-- Profile operations leave the eIM associations alone.
pub execute_psmo-eims :
    (op : Psmo) (s : EuiccState) → (execute_psmo op s).1.eim_associations ≡ s.eim_associations
unfolding execute_psmo
execute_psmo-eims op s = run_psmo-eims op.action (psmo_iccid op.iccid) s

IsValid-psmo_disable_current :
    (s : EuiccState) → IsValid s → IsValid (psmo_disable_current (get_enabled_profile s) s)
unfolding get_enabled_profile
IsValid-psmo_disable_current s v = elim (Option-cases (find_ref is_enabled s.profiles)) [
  | inl e ↦ rw e v
  | inr ((j, current), e) ↦
      let at = (find_ref_lem is_enabled s.profiles j current e).0 in
      rw e (
        IsValid-set_state s j disabled v (
          let h : count is_enabled s.profiles ≤ 1 = v.one_enabled in
          ground (arith, count-set_state s j current disabled at)))
]

IsValid-psmo_enable :
    (s : EuiccState) (i : ℕ) (p : ProfileSlot)
    → get_elem? s.profiles i ≡ some p
    → is_enabled p ≡ false
    → IsValid s
    → IsValid (set_state i enabled (psmo_disable_current (get_enabled_profile s) s))
IsValid-psmo_enable s i p at d v =
    let s₁ = psmo_disable_current (get_enabled_profile s) s in
    let same = same_profiles (get_enabled_profile s) s in
    let at₁ : get_elem? s₁.profiles i ≡ some p = rw same (get_elem?-disable_current s i p at d) in
    let none_on : count is_enabled s₁.profiles ≡ 0 =
      rw same (count-disable_current s v.one_enabled) in
    IsValid-set_state s₁ i enabled (IsValid-psmo_disable_current s v)
      (ground (arith, count-set_state s₁ i p enabled at₁, none_on, d))

IsValid-psmo_disable :
    (s : EuiccState) (i : ℕ) (p : ProfileSlot)
    → get_elem? s.profiles i ≡ some p
    → IsValid s
    → IsValid (set_state i disabled s)
IsValid-psmo_disable s i p at v = IsValid-set_state s i disabled v (
    let h : count is_enabled s.profiles ≤ 1 = v.one_enabled in
    ground (arith, count-set_state s i p disabled at))

pub removed_at :
    (iccid : Option Bytes) (s : EuiccState) (i : ℕ) (p : ProfileSlot)
    → find_psmo iccid s ≡ some (i, p)
    → remove_first (λ q. slot_eq q p) s.profiles ≡ pop_at i s.profiles
removed_at iccid s i p h = remove_selected iccid none s i p (sym (find_psmo-eq iccid s) ∙ h)

-- Every operation, by what its lookup found.
run_psmo-IsValid :
    (action : PsmoAction) (iccid : Option Bytes) (s : EuiccState)
    → IsValid s
    → IsValid (run_psmo action iccid s).1
run_psmo-IsValid enable iccid s v = elim (Option-cases (find_psmo iccid s)) [
  | inl e ↦ rw (e, run_psmo) v
  | inr ((i, p), e) ↦ elim (Bool-cases (is_enabled p)) [
    | inl on ↦ rw (e, run_psmo, on) v
    | inr off ↦
        rw (e, run_psmo, off) (IsValid-psmo_enable s i p (find_psmo_lem iccid s i p e) off v)
  ]
]
run_psmo-IsValid disable iccid s v = elim (Option-cases (find_psmo iccid s)) [
  | inl e ↦ rw (e, run_psmo) v
  | inr ((i, p), e) ↦ elim (Bool-cases (is_enabled p)) [
    | inl on ↦ rw (e, run_psmo, on) (IsValid-psmo_disable s i p (find_psmo_lem iccid s i p e) v)
    | inr off ↦ rw (e, run_psmo, off) v
  ]
]
run_psmo-IsValid delete iccid s v = elim (Option-cases (find_psmo iccid s)) [
  | inl e ↦ rw (e, run_psmo) v
  | inr ((i, p), e) ↦ elim (Bool-cases (is_enabled p)) [
    | inl on ↦ rw (e, run_psmo, on) v
    | inr off ↦
        rw (e, run_psmo, off, removed_at iccid s i p e)
          (IsValid-deleted s i p (find_psmo_lem iccid s i p e) v)
  ]
]
run_psmo-IsValid list_profile_info iccid s v = v
run_psmo-IsValid get_rat iccid s v = v
run_psmo-IsValid (other name) iccid s v = v

pub execute_psmo-IsValid : (op : Psmo) (s : EuiccState) → IsValid s → IsValid (execute_psmo op s).1
unfolding execute_psmo
execute_psmo-IsValid op s v = run_psmo-IsValid op.action (psmo_iccid op.iccid) s v

profile_size-pos : (p : ProfileSlot) → 0 < profile_size p
profile_size-pos p = size_pos p.profile_data
  where
    size_pos : (b : Bytes) → 0 < (if truthy b then length b else 4096)
    size_pos [] = omega arith
    size_pos (x ∷ xs) = omega arith

-- The `delete` operation of a package takes out the profile that it finds, where that is not
-- enabled, but leaves the free memory and the notifications as they were: free memory and the
-- profiles' sizes add up to less than before.
pub psmo_delete_leaks :
    (op : Psmo) (s : EuiccState) (i : ℕ) (p : ProfileSlot)
    → op.action ≡ delete
    → find_psmo (psmo_iccid op.iccid) s ≡ some (i, p)
    → is_enabled p ≡ false
    → let s' = (execute_psmo op s).1 in
      (s'.profiles ≡ pop_at i s.profiles)
      × (s'.free_nvm ≡ s.free_nvm)
      × (s'.notifications ≡ s.notifications)
      × (s'.free_nvm +ℤ pos (sum_by profile_size s'.profiles)
          <ℤ s.free_nvm +ℤ pos (sum_by profile_size s.profiles))
unfolding execute_psmo
psmo_delete_leaks op s i p act found off =
    rw (act, found, run_psmo, off, removed_at (psmo_iccid op.iccid) s i p found)
      (
        refl,
        refl,
        refl,
        omega (
          int_laws,
          sum_by-pop_at profile_size s.profiles i p
              (find_psmo_lem (psmo_iccid op.iccid) s i p found),
          profile_size-pos p,
        ),
      )
