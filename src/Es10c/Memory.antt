-- ===== src/Es10c/Memory.antt =====
-- What eUICCMemoryReset of app/es10/es10c.py keeps and deletes.
use euicc_simulator.Prelude.{
  ℕ, ◌-◌, ◌≤◌, ◌≡◌, refl, ap, ◌∙◌, Bool, true, false, not, ◌&&◌, ◌||◌, List, [], ◌∷◌, ◌⊎◌, inl, inr,
  Bytes, Text, arith, filter, length, length-filter-le, count, sum_by, if◌then◌else◌, Bool-cases,
  ◌==◌,
}
use euicc_simulator.Prelude.Int.{ℤ, sub_ℕ}
use euicc_simulator.Prelude.Outcome.{returned}
use euicc_simulator.Euicc.{
  ProfileSlot, ProfileClass, EuiccState, class_eq, is_enabled, provisioning, operational, test,
}
use euicc_simulator.Euicc.Valid.{IsValid}
use euicc_simulator.Es10c.{profile_size}
use euicc_simulator.Es10c.Reset.{
  ResetOptions, absent, octets, bit_string, ResetFlags, all_flags, reset_flags, is_kept, run_reset,
  euicc_memory_reset, euicc_memory_reset_sgp32,
}

-- What a filter keeps, counted by a test.
count-filter :
    (p q : ProfileSlot → Bool) (xs : List ProfileSlot)
    → count p (filter q xs) ≡ count (λ x. q x && p x) xs
count-filter p q [] = refl
count-filter p q (x ∷ xs) = ground (arith, count-filter p q xs)

count-filter-le :
    (p q : ProfileSlot → Bool) (xs : List ProfileSlot) → count p (filter q xs) ≤ count p xs
count-filter-le p q [] = omega arith
count-filter-le p q (x ∷ xs) = ground (arith, count-filter-le p q xs)

count-filter_all :
    (p q : ProfileSlot → Bool) (all : (x : ProfileSlot) → p x ≡ true → q x ≡ true)
    (xs : List ProfileSlot)
    → filter p (filter q xs) ≡ filter p xs
count-filter_all p q all [] = refl
count-filter_all p q all (x ∷ xs) = ground (arith, all x, count-filter_all p q all xs)

count-filter_none :
    (p q : ProfileSlot → Bool) (not_both : (x : ProfileSlot) → q x ≡ true → p x ≡ false)
    (xs : List ProfileSlot)
    → count p (filter q xs) ≡ 0
count-filter_none p q not_both [] = refl
count-filter_none p q not_both (x ∷ xs) =
    ground (arith, not_both x, count-filter_none p q not_both xs)

-- The profiles that no reset deletes.
abbrev pub is_protected : ProfileSlot → Bool
is_protected p = is_enabled p || class_eq p.profile_class provisioning

-- The profiles that a reset under the flags is to delete.
abbrev pub is_deletable : ResetFlags → ProfileSlot → Bool
is_deletable f p =
    not (is_protected p)
    && (class_eq p.profile_class operational && f.delete_operational
        || class_eq p.profile_class test && f.delete_test)

keep_table :
    (on : Bool) (c : ProfileClass) (dt dop : Bool)
    → (if on
        then true
        else if class_eq c provisioning
        then true
        else if class_eq c test && not dt
        then true
        else class_eq c operational && not dop)
      ≡ not (
          not (on || class_eq c provisioning)
          && (class_eq c operational && dop || class_eq c test && dt))
keep_table true c dt dop = refl
keep_table false test dt dop = ground arith
keep_table false provisioning dt dop = ground arith
keep_table false operational dt dop = ground arith

-- The loop's cascade of tests keeps what is not to be deleted.
is_kept-eq : (f : ResetFlags) (p : ProfileSlot) → is_kept f p ≡ not (is_deletable f p)
is_kept-eq f p = keep_table (is_enabled p) p.profile_class f.delete_test f.delete_operational

filter_ext :
    (p q : ProfileSlot → Bool) (same : (x : ProfileSlot) → p x ≡ q x) (xs : List ProfileSlot)
    → filter p xs ≡ filter q xs
filter_ext p q same [] = refl
filter_ext p q same (x ∷ xs) = ground (arith, same x, filter_ext p q same xs)

-- A filter that drops nothing changes nothing.
filter_nothing :
    (p : ProfileSlot → Bool) (xs : List ProfileSlot)
    → length xs - length (filter p xs) ≡ 0
    → filter p xs ≡ xs
filter_nothing p [] h = refl
filter_nothing p (x ∷ xs) h = ground (arith, length-filter-le p xs, filter_nothing p xs)

protected_kept : (f : ResetFlags) (p : ProfileSlot) → is_protected p ≡ true → is_kept f p ≡ true
protected_kept f p h = rw is_kept-eq (ground arith)

same_state :
    (s : EuiccState) (ps : List ProfileSlot)
    → ps ≡ s.profiles
    → record s { profiles = ps; default_smdp_address = s.default_smdp_address } ≡ s
same_state s ps e = λ i. record s { profiles = e i }

pub run_reset-code :
    (f : ResetFlags) (s : EuiccState)
    → let (code, s') = run_reset f s in
      ((code ≡ 0) × (s'.free_nvm ≡ sub_ℕ s.total_nvm (sum_by profile_size s'.profiles)))
      ⊎ ((code ≡ 1) × (s' ≡ s))
run_reset-code f s =
    elim (Bool-cases
      (length s.profiles - length (filter (is_kept f) s.profiles) == 0 && not f.reset_address)) [
        | inl e ↦
            let none_gone : length s.profiles - length (filter (is_kept f) s.profiles) ≡ 0 =
              ground arith in
            let no_reset : f.reset_address ≡ false = ground arith in
            rw e (
              inr (
                refl,
                rw no_reset (same_state s _ (filter_nothing (is_kept f) s.profiles none_gone)),
              ))
        | inr e ↦ rw e (inl (refl, refl))
      ]

pub run_reset_profiles :
    (f : ResetFlags) (s : EuiccState) → (run_reset f s).1.profiles ≡ filter (is_kept f) s.profiles
run_reset_profiles f s =
    elim (Bool-cases
      (length s.profiles - length (filter (is_kept f) s.profiles) == 0 && not f.reset_address)) [
        | inl e ↦ rw e
        | inr e ↦ rw e
      ]

run_reset_protected :
    (f : ResetFlags) (s : EuiccState)
    → filter is_protected (run_reset f s).1.profiles ≡ filter is_protected s.profiles
run_reset_protected f s =
    rw (run_reset_profiles f s)
      (count-filter_all is_protected (is_kept f) (protected_kept f) s.profiles)

-- The outcome of a reset in terms of its loop's code.
returned_code :
    (n : ℕ) (A B : Type 0)
    → ((n ≡ 0) × A) ⊎ ((n ≡ 1) × B)
    → ((returned n ≡ returned 0) × A) ⊎ ((returned n ≡ returned 1) × B)
returned_code n A B (inl (e, a)) = inl (ap returned e, a)
returned_code n A B (inr (e, b)) = inr (ap returned e, b)

-- A reset that returns leaves exactly the profiles that are not to be deleted, in their order, and
-- among them every enabled and every provisioning profile. It returns 0 with the free memory that
-- the kept profiles leave, or 1 and has changed nothing.
pub euicc_memory_reset_keeps :
    (options : ResetOptions) (f : ResetFlags) (s : EuiccState)
    → reset_flags options ≡ returned f
    → let (outcome, s') = euicc_memory_reset options s in
      (s'.profiles ≡ filter (λ p. not (is_deletable f p)) s.profiles)
      × (filter is_protected s'.profiles ≡ filter is_protected s.profiles)
      × (((outcome ≡ returned 0)
            × (s'.free_nvm ≡ sub_ℕ s.total_nvm (sum_by profile_size s'.profiles)))
          ⊎ ((outcome ≡ returned 1) × (s' ≡ s)))
unfolding euicc_memory_reset
euicc_memory_reset_keeps options f s h =
    rw (h, euicc_memory_reset)
      (
        run_reset_profiles f s
            ∙ filter_ext (is_kept f) (λ p. not (is_deletable f p)) (is_kept-eq f) s.profiles,
        run_reset_protected f s,
        returned_code _ _ _ (run_reset-code f s),
      )

IsValid-kept :
    (f : ResetFlags) (s : EuiccState) (address : Text) (n : ℤ)
    → IsValid s
    → IsValid (record s {
      profiles = filter (is_kept f) s.profiles;
      default_smdp_address = address;
      free_nvm = n;
    })
IsValid-kept f s address n v = record {
  one_enabled =
      let h : count is_enabled s.profiles ≤ 1 = v.one_enabled in
      omega (arith, count-filter-le is_enabled (is_kept f) s.profiles);
  numbered = v.numbered;
  distinct = v.distinct;
  room =
      let h : length s.profiles ≤ s.max_profiles = v.room in
      omega (arith, length-filter-le (is_kept f) s.profiles);
}

run_reset-IsValid : (f : ResetFlags) (s : EuiccState) → IsValid s → IsValid (run_reset f s).1
run_reset-IsValid f s v =
    elim (Bool-cases
      (length s.profiles - length (filter (is_kept f) s.profiles) == 0 && not f.reset_address)) [
        | inl e ↦ rw e (IsValid-kept f s _ s.free_nvm v)
        | inr e ↦ rw e (IsValid-kept f s _ _ v)
      ]

-- A reset keeps the state valid, whatever it returns or raises.
pub euicc_memory_reset-IsValid :
    (options : ResetOptions) (s : EuiccState) → IsValid s → IsValid (euicc_memory_reset options s).1
unfolding euicc_memory_reset
euicc_memory_reset-IsValid absent s v = run_reset-IsValid all_flags s v
euicc_memory_reset-IsValid (octets []) s v = run_reset-IsValid all_flags s v
euicc_memory_reset-IsValid (octets (flags ∷ _)) s v = run_reset-IsValid _ s v
euicc_memory_reset-IsValid (bit_string _ _) s v = v

pub euicc_memory_reset_sgp32-IsValid :
    (opts : Bytes) (bit_count : ℕ) (s : EuiccState)
    → IsValid s
    → IsValid (euicc_memory_reset_sgp32 opts bit_count s).1
unfolding euicc_memory_reset_sgp32
euicc_memory_reset_sgp32-IsValid [] bit_count s v = run_reset-IsValid all_flags s v
euicc_memory_reset_sgp32-IsValid (flags ∷ rest) bit_count s v = v
