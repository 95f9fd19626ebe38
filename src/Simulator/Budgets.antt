-- ===== src/Simulator/Budgets.antt =====
-- Every call of a handler of app/es10 keeps the memory accounted for: the resets, the eUICC packages,
-- and all commands together.
use euicc_simulator.Prelude.{
  ℕ, ◌+◌, ◌≤◌, ◌≡◌, refl, ap, sym, subst, ◌∙◌, Bool, Option, List, [], ◌∷◌, Bytes, inl, inr, arith,
  default, Option-cases, Bool-cases, sum_by, filter,
}
use euicc_simulator.Prelude.Int.{pos, neg_part, pos_part, sub_ℕ, leb_ℤ}
use euicc_simulator.Euicc.{
  enabled, disabled, ProfileSlot, EuiccState, is_enabled, get_enabled_profile,
}
use euicc_simulator.Es10a.{set_default_dp_address}
use euicc_simulator.Es10b.Engine.{Engine}
use euicc_simulator.Es10b.Info.{get_euicc_challenge}
use euicc_simulator.Es10b.Frame.{authenticate_server-OnlySession, prepare_download-OnlySession}
use euicc_simulator.Es10bIot.{find_eim}
use euicc_simulator.Es10bIot.Package.{
  Psmo, PsmoAction, list_profile_info, get_rat, other, Package, accept, find_psmo, psmo_iccid,
  run_psmo, execute_psmo, run_psmos, load_euicc_package,
}
use euicc_simulator.Es10bIot.Psmo.{find_psmo_lem, removed_at}
use euicc_simulator.Es10c.{profile_size, profile_rollback}
use euicc_simulator.Es10c.Memory.{run_reset-code, run_reset_profiles}
use euicc_simulator.Es10c.Reset.{
  ResetOptions, absent, octets, bit_string, ResetFlags, all_flags, is_kept, run_reset,
  euicc_memory_reset, euicc_memory_reset_sgp32,
}
use euicc_simulator.Simulator.{
  Command, set_address, challenge, authenticate, prepare, load, cancel, remove, enable, disable,
  delete, nickname, rollback, reset, reset_sgp32, register, unregister, change, register_initial,
  load_iot, perform,
}
use euicc_simulator.Simulator.Footprint
use euicc_simulator.Simulator.Footprint.{
  features, used_nvm, SameMemory, SameMemory-refl, SameMemory-trans, set_state-SameMemory,
  psmo_disable_current-SameMemory, run_ecos-SameMemory,
}
use euicc_simulator.Simulator.Memory.{
  MemoryIsValid, Budgets, Budgets-refl, Budgets-trans, SameMemory-Budgets, popped-Budgets,
  delete_profile-Budgets, load_bound_profile_package-Budgets,
}

sum_by-filter-le :
    (w : ProfileSlot → ℕ) (q : ProfileSlot → Bool) (xs : List ProfileSlot)
    → sum_by w (filter q xs) ≤ sum_by w xs
sum_by-filter-le w q [] = omega arith
sum_by-filter-le w q (x ∷ xs) = ground (arith, sum_by-filter-le w q xs)

sub_ℕ_parts : (a b : ℕ) → b ≤ a → (neg_part (sub_ℕ a b) ≡ 0) × (pos_part (sub_ℕ a b) + b ≡ a)
sub_ℕ_parts a b h = ground arith

run_reset-features : (f : ResetFlags) (s : EuiccState) → features (run_reset f s).1 ≡ features s
run_reset-features f s = ground arith

run_reset-Budgets : (f : ResetFlags) (s : EuiccState) → Budgets s (run_reset f s).1
run_reset-Budgets f s = record {
  kept_features = run_reset-features f s;
  kept_memory = λ v.
      let t = (run_reset f s).1 in
      let fewer : used_nvm t ≤ used_nvm s =
        rw (run_reset_profiles f s) (sum_by-filter-le profile_size (is_kept f) s.profiles) in
      let total : t.total_nvm ≡ s.total_nvm = ap (λ g. g.total_nvm) (run_reset-features f s) in
      elim (run_reset-code f s) [
        | inr (code, same) ↦ subst MemoryIsValid (sym same) v
        | inl (code, freed) ↦
            let (z, all) =
              sub_ℕ_parts s.total_nvm (used_nvm t) (omega (arith, fewer, v.accounted)) in
            record {
              non_negative = ap neg_part freed ∙ z;
              accounted = omega (arith, ap pos_part freed, all, total);
            }
      ];
}

euicc_memory_reset-Budgets :
    (o : ResetOptions) (s : EuiccState) → Budgets s (euicc_memory_reset o s).1
unfolding euicc_memory_reset
euicc_memory_reset-Budgets absent s = run_reset-Budgets all_flags s
euicc_memory_reset-Budgets (octets []) s = run_reset-Budgets all_flags s
euicc_memory_reset-Budgets (octets (flags ∷ _)) s = run_reset-Budgets _ s
euicc_memory_reset-Budgets (bit_string _ _) s = Budgets-refl s

euicc_memory_reset_sgp32-Budgets :
    (b : Bytes) (n : ℕ) (s : EuiccState) → Budgets s (euicc_memory_reset_sgp32 b n s).1
unfolding euicc_memory_reset_sgp32 euicc_memory_reset
euicc_memory_reset_sgp32-Budgets [] n s = run_reset-Budgets all_flags s
euicc_memory_reset_sgp32-Budgets (b ∷ bs) n s = Budgets-refl s

run_psmo-Budgets :
    (action : PsmoAction) (iccid : Option Bytes) (s : EuiccState)
    → Budgets s (run_psmo action iccid s).1
run_psmo-Budgets PsmoAction.enable iccid s = elim (Option-cases (find_psmo iccid s)) [
  | inl e ↦ rw (e, run_psmo) (Budgets-refl s)
  | inr ((i, p), e) ↦ elim (Bool-cases (is_enabled p)) [
    | inl on ↦ rw (e, run_psmo, on) (Budgets-refl s)
    | inr off ↦
        rw (e, run_psmo, off)
          (SameMemory-Budgets s _ (
            SameMemory-trans s _ _ (psmo_disable_current-SameMemory (get_enabled_profile s) s)
              (set_state-SameMemory i enabled _)))
  ]
]
run_psmo-Budgets PsmoAction.disable iccid s = elim (Option-cases (find_psmo iccid s)) [
  | inl e ↦ rw (e, run_psmo) (Budgets-refl s)
  | inr ((i, p), e) ↦ elim (Bool-cases (is_enabled p)) [
    | inl on ↦ rw (e, run_psmo, on) (SameMemory-Budgets s _ (set_state-SameMemory i disabled s))
    | inr off ↦ rw (e, run_psmo, off) (Budgets-refl s)
  ]
]
run_psmo-Budgets PsmoAction.delete iccid s = elim (Option-cases (find_psmo iccid s)) [
  | inl e ↦ rw (e, run_psmo) (Budgets-refl s)
  | inr ((i, p), e) ↦ elim (Bool-cases (is_enabled p)) [
    | inl on ↦ rw (e, run_psmo, on) (Budgets-refl s)
    | inr off ↦
        rw (e, run_psmo, off, removed_at iccid s i p e)
          (popped-Budgets s i p (find_psmo_lem iccid s i p e))
  ]
]
run_psmo-Budgets list_profile_info iccid s = Budgets-refl s
run_psmo-Budgets get_rat iccid s = Budgets-refl s
run_psmo-Budgets (other name) iccid s = Budgets-refl s

run_psmos-Budgets : (ops : List Psmo) (s : EuiccState) → Budgets s (run_psmos ops s).1
unfolding run_psmos execute_psmo
run_psmos-Budgets [] s = Budgets-refl s
run_psmos-Budgets (op ∷ ops) s =
    Budgets-trans s _ _ (run_psmo-Budgets op.action (psmo_iccid op.iccid) s)
      (run_psmos-Budgets ops (execute_psmo op s).1)

load_euicc_package-Budgets :
    (pkg : Package) (s : EuiccState) → Budgets s (load_euicc_package pkg s).1
unfolding load_euicc_package
load_euicc_package-Budgets pkg s = elim (Option-cases (find_eim (default pkg.eim_id []) s)) [
  | inl unknown ↦ rw (load_euicc_package, unknown) (Budgets-refl s)
  | inr ((i, a), here) ↦
      elim (Bool-cases (leb_ℤ (default pkg.counter_value (pos 0)) a.counter_value)) [
        | inl old ↦ rw (load_euicc_package, here, old) (Budgets-refl s)
        | inr new ↦
            let s' = accept i (default pkg.counter_value (pos 0)) s in
            let accepted : SameMemory s s' = record {
              same_features = refl;
              same_free = refl;
              same_used = refl;
            } in
            rw (load_euicc_package, here, new)
              (Budgets-trans s _ _ (SameMemory-Budgets s _ accepted) (
                Budgets-trans s' _ _ (run_psmos-Budgets pkg.psmo_list s')
                  (SameMemory-Budgets _ _ (run_ecos-SameMemory pkg.eco_list _))))
      ]
]

-- Every command leaves the features of the eUICC and keeps its memory accounted for.
pub perform-Budgets : (e : Engine) (c : Command) (s : EuiccState) → Budgets s (perform e c s)
unfolding set_default_dp_address profile_rollback get_euicc_challenge
perform-Budgets e (set_address address) s =
    SameMemory-Budgets s _ record { same_features = refl; same_free = refl; same_used = refl }
perform-Budgets e (challenge drawn) s =
    SameMemory-Budgets s _ record { same_features = refl; same_free = refl; same_used = refl }
perform-Budgets e (authenticate signed signature pkid certificate ctx raw) s =
    SameMemory-Budgets s _ (
      Footprint.OnlySession-SameMemory s _
        (authenticate_server-OnlySession e signed signature pkid certificate ctx raw s))
perform-Budgets e (prepare signed signature hash_cc certificate raw otpk) s =
    SameMemory-Budgets s _ (
      Footprint.OnlySession-SameMemory s _
        (prepare_download-OnlySession e signed signature hash_cc certificate raw otpk s))
perform-Budgets e (load bpp random_iccid) s =
    load_bound_profile_package-Budgets e bpp random_iccid s
perform-Budgets e (cancel transaction_id reason) s =
    SameMemory-Budgets s _ (Footprint.cancel_session-SameMemory e transaction_id reason s)
perform-Budgets e (remove seq_number) s =
    SameMemory-Budgets s _ (Footprint.remove_notification-SameMemory seq_number s)
perform-Budgets e (enable iccid aid) s =
    SameMemory-Budgets s _ (Footprint.enable_profile-SameMemory iccid aid s)
perform-Budgets e (disable iccid aid) s =
    SameMemory-Budgets s _ (Footprint.disable_profile-SameMemory iccid aid s)
perform-Budgets e (delete iccid aid) s = delete_profile-Budgets iccid aid s
perform-Budgets e (nickname iccid name) s =
    SameMemory-Budgets s _ (Footprint.set_nickname-SameMemory iccid name s)
perform-Budgets e rollback s =
    SameMemory-Budgets s _ (Footprint.roll_back-SameMemory s.active_session s)
perform-Budgets e (reset options) s = euicc_memory_reset-Budgets options s
perform-Budgets e (reset_sgp32 opts_bytes bit_count) s =
    euicc_memory_reset_sgp32-Budgets opts_bytes bit_count s
perform-Budgets e (register config token) s =
    SameMemory-Budgets s _ (Footprint.add_eim-SameMemory config token s)
perform-Budgets e (unregister eim_id) s =
    SameMemory-Budgets s _ (Footprint.delete_eim-SameMemory eim_id s)
perform-Budgets e (change eim_id config) s =
    SameMemory-Budgets s _ (Footprint.update_eim-SameMemory eim_id config s)
perform-Budgets e (register_initial configs) s =
    SameMemory-Budgets s _ (Footprint.add_initial_eim-SameMemory configs s)
perform-Budgets e (load_iot pkg) s = load_euicc_package-Budgets pkg s
