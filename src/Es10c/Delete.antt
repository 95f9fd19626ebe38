-- ===== src/Es10c/Delete.antt =====
-- DeleteProfile of app/es10/es10c.py: which profile goes, and the memory that comes back.
use euicc_simulator.Prelude.{
  ℕ, ◌≤◌, ◌≡◌, refl, true, false, Option, none, some, inl, inr, Bytes, arith, bytes_eq_refl,
  bytes_eq→eq, find_ref_lem, remove_first, remove_first-eq-pop_at, pop_at, get_elem?, length-pop_at,
  count, sum_by, sum_by-pop_at, bit, if◌then◌else◌, Option-cases, Bool-cases,
}
use euicc_simulator.Prelude.Int.{pos, ◌+ℤ◌, int_laws}
use euicc_simulator.Euicc.{
  ProfileSlot, EuiccState, ProfileState, enabled, disabled, ProfileClass, test, provisioning,
  operational, Operation, slot_eq, state_eq, class_eq, is_enabled, has_iccid, has_aid,
  add_notification, find_profile_by_iccid, find_profile_by_aid,
}
use euicc_simulator.Euicc.Valid.{
  IsValid, IsValid-add_notification, IsValid-with_nvm, IsValid-with_profiles,
}
use euicc_simulator.Es10c.{select_profile, profile_size, without_profile, delete_profile}
use euicc_simulator.Es10c.Enable.{select_profile_lem}

state_eq_refl : (st : ProfileState) → state_eq st st ≡ true
state_eq_refl disabled = refl
state_eq_refl enabled = refl

class_eq_refl : (c : ProfileClass) → class_eq c c ≡ true
class_eq_refl test = refl
class_eq_refl provisioning = refl
class_eq_refl operational = refl

pub slot_eq_refl : (p : ProfileSlot) → slot_eq p p ≡ true
unfolding slot_eq
slot_eq_refl p = simp (bytes_eq_refl, state_eq_refl, class_eq_refl)

-- Equal slots have one ICCID and one AID.
slot_eq_keys :
    (a b : ProfileSlot) → slot_eq a b ≡ true → (a.iccid ≡ b.iccid) × (a.isdp_aid ≡ b.isdp_aid)
unfolding slot_eq
slot_eq_keys a b h =
    (bytes_eq→eq a.iccid b.iccid (ground arith), bytes_eq→eq a.isdp_aid b.isdp_aid (ground arith))

remove-by_iccid :
    (c : Bytes) (s : EuiccState) (i : ℕ) (p : ProfileSlot)
    → find_profile_by_iccid s c ≡ some (i, p)
    → remove_first (λ q. slot_eq q p) s.profiles ≡ pop_at i s.profiles
unfolding find_profile_by_iccid
remove-by_iccid c s i p h =
    let found : has_iccid c p ≡ true = (find_ref_lem (has_iccid c) s.profiles i p h).1 in
    remove_first-eq-pop_at (λ q. slot_eq q p) (has_iccid c)
      (λ b e. rw ((slot_eq_keys b p e).0) found) s.profiles i p (slot_eq_refl p) h

remove-by_aid :
    (a : Bytes) (s : EuiccState) (i : ℕ) (p : ProfileSlot)
    → find_profile_by_aid s a ≡ some (i, p)
    → remove_first (λ q. slot_eq q p) s.profiles ≡ pop_at i s.profiles
unfolding find_profile_by_aid
remove-by_aid a s i p h =
    let found : has_aid a p ≡ true = (find_ref_lem (has_aid a) s.profiles i p h).1 in
    remove_first-eq-pop_at (λ q. slot_eq q p) (has_aid a) (λ b e. rw ((slot_eq_keys b p e).1) found)
      s.profiles i p (slot_eq_refl p) h

-- `list.remove`, which compares by value, takes out the very profile that was selected.
pub remove_selected :
    (iccid aid : Option Bytes) (s : EuiccState) (i : ℕ) (p : ProfileSlot)
    → select_profile iccid aid s ≡ some (i, p)
    → remove_first (λ q. slot_eq q p) s.profiles ≡ pop_at i s.profiles
unfolding select_profile
remove_selected none none s i p h = absurd (cc)
remove_selected none (some a) s i p h = ground (arith, remove-by_aid a s i p)
remove_selected (some c) none s i p h = ground (arith, remove-by_iccid c s i p)
remove_selected (some c) (some a) s i p h =
    ground (arith, remove-by_iccid c s i p, remove-by_aid a s i p)

abbrev pub deleted_state : ProfileSlot → EuiccState → EuiccState
deleted_state p s =
    let s' = without_profile p s in
    add_notification Operation.delete p.notification_address (some p.iccid)
      (record s' { free_nvm = s'.free_nvm +ℤ pos (profile_size p) })

pub delete_profile_found :
    (iccid aid : Option Bytes) (s : EuiccState) (i : ℕ) (p : ProfileSlot)
    → select_profile iccid aid s ≡ some (i, p)
    → delete_profile iccid aid s ≡ (if is_enabled p then (2, s) else (0, deleted_state p s))
unfolding delete_profile
delete_profile_found iccid aid s i p found = rw (found, delete_profile)

-- DeleteProfile of a disabled profile returns 0, takes out that profile and no other, and gives
-- back its memory: free memory and the profiles' sizes add up to what they did before.
pub delete_profile_reclaims :
    (iccid aid : Option Bytes) (s : EuiccState) (i : ℕ) (p : ProfileSlot)
    → select_profile iccid aid s ≡ some (i, p)
    → is_enabled p ≡ false
    → let (code, s') = delete_profile iccid aid s in
      (code ≡ 0)
      × (s'.profiles ≡ pop_at i s.profiles)
      × (s'.free_nvm +ℤ pos (sum_by profile_size s'.profiles)
          ≡ s.free_nvm +ℤ pos (sum_by profile_size s.profiles))
unfolding add_notification
delete_profile_reclaims iccid aid s i p found d =
    let at = select_profile_lem iccid aid s i p found in
    let gone = remove_selected iccid aid s i p found in
    rw (delete_profile_found iccid aid s i p found, d)
      (refl, gone, rw gone (omega (int_laws, sum_by-pop_at profile_size s.profiles i p at)))

pub IsValid-deleted :
    (s : EuiccState) (i : ℕ) (p : ProfileSlot)
    → get_elem? s.profiles i ≡ some p
    → IsValid s
    → IsValid (record s { profiles = pop_at i s.profiles })
IsValid-deleted s i p at v =
    IsValid-with_profiles s (pop_at i s.profiles) v
      (let h : count is_enabled s.profiles ≤ 1 = v.one_enabled in
        omega (arith, sum_by-pop_at (λ q. bit (is_enabled q)) s.profiles i p at))
      (omega (arith, length-pop_at s.profiles i p at))

-- DeleteProfile keeps the state valid, whatever it returns.
pub delete_profile-IsValid :
    (iccid aid : Option Bytes) (s : EuiccState) → IsValid s → IsValid (delete_profile iccid aid s).1
unfolding delete_profile
delete_profile-IsValid iccid aid s v = elim (Option-cases (select_profile iccid aid s)) [
  | inl e ↦ rw (e, delete_profile) v
  | inr ((i, p), e) ↦ elim (Bool-cases (is_enabled p)) [
    | inl on ↦ rw (delete_profile_found iccid aid s i p e, on) v
    | inr off ↦
        rw (delete_profile_found iccid aid s i p e, off)
          (rw (remove_selected iccid aid s i p e) (
            IsValid-add_notification Operation.delete p.notification_address (some p.iccid) _ (
              IsValid-with_nvm (record s { profiles = pop_at i s.profiles }) _
                (IsValid-deleted s i p (select_profile_lem iccid aid s i p e) v))))
  ]
]
