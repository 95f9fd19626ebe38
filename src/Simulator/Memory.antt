-- ===== src/Simulator/Memory.antt =====
-- The memory of app/models/euicc.py under the handlers of app/es10: what installations take,
-- deletions and resets give back, and what the card resource of euiccInfo2 reports of it.
use euicc_simulator.Prelude.{
  ℕ, ◌+◌, ◌≤◌, ◌≡◌, refl, ap, ◌∙◌, false, some, Option, [], ◌∷◌, Bytes, inl, inr, arith,
  Option-cases, Bool-cases, sum_by-append, sum_by-pop_at, pop_at, get_elem?,
}
use euicc_simulator.Prelude.Int.{ℤ, pos, neg_part, pos_part, ◌+ℤ◌, ◌-ℤ◌, ltb_ℤ}
use euicc_simulator.Prelude.Outcome.{Outcome}
use euicc_simulator.Euicc.{ProfileSlot, EuiccState, is_enabled, add_notification}
use euicc_simulator.Es10b.Engine.{Engine}
use euicc_simulator.Es10b.Load.{Bpp, LoadResult, with_installed, load_bound_profile_package}
use euicc_simulator.Es10b.Installs.{
  Fits, LoadStep, refused, failed, interrupted, completed, load_bound_profile_package_step,
}
use euicc_simulator.Es10c.{profile_size, select_profile, delete_profile}
use euicc_simulator.Es10c.Enable.{select_profile_lem}
use euicc_simulator.Es10c.Delete.{deleted_state, delete_profile_found, remove_selected}
use euicc_simulator.Simulator.Footprint.{features, used_nvm, SameMemory}

-- The free memory is not negative, and with what the profiles count for it is no more than the
-- memory that there is.
pub record MemoryIsValid (s : EuiccState) : Type 0 where
  pub non_negative : neg_part s.free_nvm ≡ 0
  pub accounted : pos_part s.free_nvm + used_nvm s ≤ s.total_nvm

take_nvm :
    (a : ℤ) (n : ℕ)
    → neg_part a ≡ 0
    → ltb_ℤ a (pos n) ≡ false
    → (neg_part (a -ℤ pos n) ≡ 0) × (pos_part (a -ℤ pos n) + n ≡ pos_part a)
unfolding ◌-ℤ◌
take_nvm a n z enough = ground arith

give_back :
    (a : ℤ) (n : ℕ)
    → neg_part a ≡ 0
    → (neg_part (a +ℤ pos n) ≡ 0) × (pos_part (a +ℤ pos n) ≡ pos_part a + n)
unfolding ◌+ℤ◌
give_back a n z = ground arith

-- A call leaves the features alone and keeps the memory accounted for.
pub record Budgets (s t : EuiccState) : Type 0 where
  pub kept_features : features t ≡ features s
  pub kept_memory : MemoryIsValid s → MemoryIsValid t

pub SameMemory-Budgets : (s t : EuiccState) → SameMemory s t → Budgets s t
SameMemory-Budgets s t h = record {
  kept_features = h.same_features;
  kept_memory = λ v. record {
    non_negative = rw (h.same_free) (v.non_negative);
    accounted = rw (h.same_free, h.same_used, ap (λ f. f.total_nvm) h.same_features) (v.accounted);
  };
}

pub Budgets-refl : (s : EuiccState) → Budgets s s
Budgets-refl s = record { kept_features = refl; kept_memory = λ v. v }

pub Budgets-trans : (s t u : EuiccState) → Budgets s t → Budgets t u → Budgets s u
Budgets-trans s t u h k = record {
  kept_features = k.kept_features ∙ h.kept_features;
  kept_memory = λ v. k.kept_memory (h.kept_memory v);
}

with_installed-Budgets :
    (p : ProfileSlot) (s : EuiccState) → Fits s p → Budgets s (with_installed p s)
unfolding add_notification
with_installed-Budgets p s fits = record {
  kept_features = refl;
  kept_memory = λ v.
      let (z, taken) = take_nvm s.free_nvm (profile_size p) v.non_negative fits.2 in
      let used = sum_by-append profile_size s.profiles (p ∷ []) in
      record { non_negative = z; accounted = omega (arith, taken, used, v.accounted) };
}

LoadStep-Budgets : (s t : EuiccState) (o : Outcome LoadResult) → LoadStep s o t → Budgets s t
LoadStep-Budgets s t o (refused tid c r) = Budgets-refl s
LoadStep-Budgets s t o failed = Budgets-refl s
LoadStep-Budgets s t o (interrupted p fits) = with_installed-Budgets p s fits
LoadStep-Budgets s t o (completed p r signature fits) =
    let h = with_installed-Budgets p s fits in
    record {
      kept_features = h.kept_features;
      kept_memory = λ v.
          let v' = h.kept_memory v in
          record { non_negative = v'.non_negative; accounted = v'.accounted };
    }

pub load_bound_profile_package-Budgets :
    (e : Engine) (bpp : Bpp) (random : Bytes) (s : EuiccState)
    → Budgets s (load_bound_profile_package e bpp random s).1
load_bound_profile_package-Budgets e bpp random s =
    LoadStep-Budgets s _ _ (load_bound_profile_package_step e bpp random s)

pub popped-Budgets :
    (s : EuiccState) (i : ℕ) (p : ProfileSlot)
    → get_elem? s.profiles i ≡ some p
    → Budgets s (record s { profiles = pop_at i s.profiles })
popped-Budgets s i p at = record {
  kept_features = refl;
  kept_memory = λ v. record {
    non_negative = v.non_negative;
    accounted = omega (arith, v.accounted, sum_by-pop_at profile_size s.profiles i p at);
  };
}

deleted-Budgets :
    (iccid aid : Option Bytes) (s : EuiccState) (i : ℕ) (p : ProfileSlot)
    → select_profile iccid aid s ≡ some (i, p)
    → Budgets s (deleted_state p s)
unfolding add_notification
deleted-Budgets iccid aid s i p found = record {
  kept_features = refl;
  kept_memory = λ v.
      let at = select_profile_lem iccid aid s i p found in
      let (z, given) = give_back s.free_nvm (profile_size p) v.non_negative in
      let less = sum_by-pop_at profile_size s.profiles i p at in
      record {
        non_negative = z;
        accounted =
            rw (remove_selected iccid aid s i p found) (omega (arith, given, less, v.accounted));
      };
}

pub delete_profile-Budgets :
    (iccid aid : Option Bytes) (s : EuiccState) → Budgets s (delete_profile iccid aid s).1
unfolding delete_profile
delete_profile-Budgets iccid aid s = elim (Option-cases (select_profile iccid aid s)) [
  | inl e ↦ rw (e, delete_profile) (Budgets-refl s)
  | inr ((i, p), e) ↦ elim (Bool-cases (is_enabled p)) [
    | inl on ↦ rw (delete_profile_found iccid aid s i p e, on) (Budgets-refl s)
    | inr off ↦ rw (delete_profile_found iccid aid s i p e, off) (deleted-Budgets iccid aid s i p e)
  ]
]
