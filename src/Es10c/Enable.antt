-- ===== src/Es10c/Enable.antt =====
-- EnableProfile and DisableProfile of app/es10/es10c.py: one profile is enabled at most.
use euicc_simulator.Prelude.{
  ℕ, ◌+◌, ◌≤◌, ◌≡◌, ◌≢◌, ◌∙◌, refl, true, false, Option, none, some, inl, inr, Bytes, arith,
  find_ref, find_ref_lem, find_ref-none, update_at, get_elem?, get_elem?-update_at_self,
  get_elem?-update_at_ne, length-update_at, count, sum_by-update_at, bit, if◌then◌else◌,
  Option-cases, Bool-cases,
}
use euicc_simulator.Euicc.{
  ProfileState, enabled, disabled, ProfileSlot, EuiccState, Operation, is_enabled, has_iccid,
  has_aid, add_notification, get_enabled_profile, find_profile_by_iccid, find_profile_by_aid,
}
use euicc_simulator.Euicc.Valid.{IsValid, IsValid-add_notification, IsValid-with_profiles}
use euicc_simulator.Es10c.{
  select_profile, with_state, set_state, disable_current, enable_profile, disable_profile,
}

-- A selected profile stands in the list, at the position that the lookup gives.
pub select_profile_lem :
    (iccid aid : Option Bytes) (s : EuiccState) (i : ℕ) (p : ProfileSlot)
    → select_profile iccid aid s ≡ some (i, p)
    → get_elem? s.profiles i ≡ some p
unfolding select_profile find_profile_by_iccid find_profile_by_aid
select_profile_lem none none s i p h = absurd (cc)
select_profile_lem none (some a) s i p h = ground (arith, find_ref_lem (has_aid a) s.profiles i p)
select_profile_lem (some c) none s i p h = ground (arith, find_ref_lem (has_iccid c) s.profiles i p)
select_profile_lem (some c) (some a) s i p h =
    ground
      (arith, find_ref_lem (has_iccid c) s.profiles i p, find_ref_lem (has_aid a) s.profiles i p)

-- An assignment to one profile's state moves the count of enabled profiles by that profile.
pub count-set_state :
    (s : EuiccState) (i : ℕ) (p : ProfileSlot) (st : ProfileState)
    → get_elem? s.profiles i ≡ some p
    → count is_enabled (set_state i st s).profiles + bit (is_enabled p)
      ≡ count is_enabled s.profiles + bit (is_enabled (with_state st p))
count-set_state s i p st h =
    sum_by-update_at (λ q. bit (is_enabled q)) (with_state st) s.profiles i p h

-- Where one profile is enabled at most, the first step of EnableProfile leaves none enabled.
pub count-disable_current :
    (s : EuiccState)
    → count is_enabled s.profiles ≤ 1
    → count is_enabled (disable_current (get_enabled_profile s) s).profiles ≡ 0
unfolding get_enabled_profile add_notification
count-disable_current s h = elim (Option-cases (find_ref is_enabled s.profiles)) [
  | inl e ↦ rw e (find_ref-none is_enabled s.profiles e)
  | inr ((j, current), e) ↦
      let l = find_ref_lem is_enabled s.profiles j current e in
      rw e (ground (arith, count-set_state s j current disabled l.0, l.1))
]

-- It touches no disabled profile.
pub get_elem?-disable_current :
    (s : EuiccState) (i : ℕ) (p : ProfileSlot)
    → get_elem? s.profiles i ≡ some p
    → is_enabled p ≡ false
    → get_elem? (disable_current (get_enabled_profile s) s).profiles i ≡ some p
unfolding get_enabled_profile add_notification
get_elem?-disable_current s i p h d = elim (Option-cases (find_ref is_enabled s.profiles)) [
  | inl e ↦ rw e h
  | inr ((j, current), e) ↦
      let l = find_ref_lem is_enabled s.profiles j current e in
      let other : j ≢ i = λ same. cc (l.0, l.1, h, d, same) in
      rw e (get_elem?-update_at_ne (with_state disabled) s.profiles j i other ∙ h)
]

-- The state in which a successful EnableProfile ends.
abbrev pub enabled_state : ℕ → ProfileSlot → EuiccState → EuiccState
enabled_state i p s =
    add_notification Operation.enable p.notification_address (some p.iccid)
      (set_state i enabled (disable_current (get_enabled_profile s) s))

abbrev pub disabled_state : ℕ → ProfileSlot → EuiccState → EuiccState
disabled_state i p s =
    add_notification Operation.disable p.notification_address (some p.iccid)
      (set_state i disabled s)

module _ (iccid aid : Option Bytes) (s : EuiccState) (i : ℕ) (p : ProfileSlot)
    (found : select_profile iccid aid s ≡ some (i, p)) where
  pub enable_profile_found :
      enable_profile iccid aid s ≡ (if is_enabled p then (4, s) else (0, enabled_state i p s))
  unfolding enable_profile
  enable_profile_found = rw (found, enable_profile)

  pub disable_profile_found :
      disable_profile iccid aid s ≡ (if is_enabled p then (0, disabled_state i p s) else (2, s))
  unfolding disable_profile
  disable_profile_found = rw (found, disable_profile) (ground arith)

-- With one profile enabled at most, EnableProfile of a disabled profile returns 0, and then that
-- profile is enabled and is the only one that is.
pub enable_profile_exclusive :
    (iccid aid : Option Bytes) (s : EuiccState) (i : ℕ) (p : ProfileSlot)
    → select_profile iccid aid s ≡ some (i, p)
    → is_enabled p ≡ false
    → count is_enabled s.profiles ≤ 1
    → let (code, s') = enable_profile iccid aid s in
      (code ≡ 0)
      × (get_elem? s'.profiles i ≡ some (with_state enabled p))
      × (count is_enabled s'.profiles ≡ 1)
unfolding add_notification
enable_profile_exclusive iccid aid s i p found d h =
    let at = select_profile_lem iccid aid s i p found in
    let s₁ = disable_current (get_enabled_profile s) s in
    let at₁ = get_elem?-disable_current s i p at d in
    rw (enable_profile_found iccid aid s i p found, d)
      (
        refl,
        get_elem?-update_at_self (with_state enabled) s₁.profiles i p at₁,
        ground (arith, count-set_state s₁ i p enabled at₁, count-disable_current s h),
      )

pub IsValid-set_state :
    (s : EuiccState) (i : ℕ) (st : ProfileState)
    → IsValid s
    → count is_enabled (set_state i st s).profiles ≤ 1
    → IsValid (set_state i st s)
IsValid-set_state s i st v h =
    IsValid-with_profiles s (update_at i (with_state st) s.profiles) v h
      (omega (arith, length-update_at (with_state st) s.profiles i))

IsValid-disable :
    (s : EuiccState) (i : ℕ) (p : ProfileSlot)
    → get_elem? s.profiles i ≡ some p
    → IsValid s
    → IsValid (disabled_state i p s)
IsValid-disable s i p at v =
    IsValid-add_notification Operation.disable p.notification_address (some p.iccid)
      (set_state i disabled s)
      (IsValid-set_state s i disabled v (
        let h : count is_enabled s.profiles ≤ 1 = v.one_enabled in
        ground (arith, count-set_state s i p disabled at)))

pub IsValid-disable_current :
    (s : EuiccState) → IsValid s → IsValid (disable_current (get_enabled_profile s) s)
unfolding get_enabled_profile
IsValid-disable_current s v = elim (Option-cases (find_ref is_enabled s.profiles)) [
  | inl e ↦ rw e v
  | inr ((j, current), e) ↦
      rw e (IsValid-disable s j current (find_ref_lem is_enabled s.profiles j current e).0 v)
]

IsValid-enable :
    (s : EuiccState) (i : ℕ) (p : ProfileSlot)
    → get_elem? s.profiles i ≡ some p
    → is_enabled p ≡ false
    → IsValid s
    → IsValid (enabled_state i p s)
IsValid-enable s i p at d v =
    let s₁ = disable_current (get_enabled_profile s) s in
    let at₁ = get_elem?-disable_current s i p at d in
    IsValid-add_notification Operation.enable p.notification_address (some p.iccid)
      (set_state i enabled s₁)
      (IsValid-set_state s₁ i enabled (IsValid-disable_current s v) (
        ground
          (arith, count-set_state s₁ i p enabled at₁, count-disable_current s v.one_enabled, d)))

-- EnableProfile keeps the state valid, whatever it returns.
pub enable_profile-IsValid :
    (iccid aid : Option Bytes) (s : EuiccState) → IsValid s → IsValid (enable_profile iccid aid s).1
unfolding enable_profile
enable_profile-IsValid iccid aid s v = elim (Option-cases (select_profile iccid aid s)) [
  | inl e ↦ rw (e, enable_profile) v
  | inr ((i, p), e) ↦ elim (Bool-cases (is_enabled p)) [
    | inl on ↦ rw (enable_profile_found iccid aid s i p e, on) v
    | inr off ↦
        rw (enable_profile_found iccid aid s i p e, off)
          (IsValid-enable s i p (select_profile_lem iccid aid s i p e) off v)
  ]
]

-- DisableProfile keeps the state valid, whatever it returns.
pub disable_profile-IsValid :
    (iccid aid : Option Bytes) (s : EuiccState)
    → IsValid s
    → IsValid (disable_profile iccid aid s).1
unfolding disable_profile
disable_profile-IsValid iccid aid s v = elim (Option-cases (select_profile iccid aid s)) [
  | inl e ↦ rw (e, disable_profile) v
  | inr ((i, p), e) ↦ elim (Bool-cases (is_enabled p)) [
    | inl on ↦
        rw (disable_profile_found iccid aid s i p e, on)
          (IsValid-disable s i p (select_profile_lem iccid aid s i p e) v)
    | inr off ↦ rw (disable_profile_found iccid aid s i p e, off) v
  ]
]

-- With one profile enabled at most, DisableProfile of the enabled profile returns 0, and then that
-- profile is disabled and no profile is enabled.
pub disable_profile_clears :
    (iccid aid : Option Bytes) (s : EuiccState) (i : ℕ) (p : ProfileSlot)
    → select_profile iccid aid s ≡ some (i, p)
    → is_enabled p ≡ true
    → count is_enabled s.profiles ≤ 1
    → let (code, s') = disable_profile iccid aid s in
      (code ≡ 0)
      × (get_elem? s'.profiles i ≡ some (with_state disabled p))
      × (count is_enabled s'.profiles ≡ 0)
unfolding add_notification
disable_profile_clears iccid aid s i p found d h =
    let at = select_profile_lem iccid aid s i p found in
    rw (disable_profile_found iccid aid s i p found, d)
      (
        refl,
        get_elem?-update_at_self (with_state disabled) s.profiles i p at,
        ground (arith, count-set_state s i p disabled at),
      )
