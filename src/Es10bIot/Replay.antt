-- ===== src/Es10bIot/Replay.antt =====
-- LoadEuiccPackage of app/es10/es10b_iot.py: validity and replay protection.
use euicc_simulator.Prelude.{
  ℕ, ◌≡◌, ◌≢◌, refl, sym, subst, ◌∙◌, Bool, true, false, some, List, [], ◌∷◌, inl, inr, Text, arith,
  bytes_eq, bytes_eq_refl, default, find_ref, Option-cases, Bool-cases,
}
use euicc_simulator.Prelude.Int.{ℤ, pos, ◌≤ℤ◌, ◌<ℤ◌, leb_ℤ}
use euicc_simulator.Euicc.{EimAssociation, has_id, EuiccState}
use euicc_simulator.Euicc.Valid.{IsValid}
use euicc_simulator.Es10bIot.{EimConfig, add_eim}
use euicc_simulator.Es10bIot.Eims.{
  assoc_of, assoc_of-find, assoc_of-find_none, assoc_of-update_self, assoc_of-append_old,
  DistinctEims-update_at,
}
use euicc_simulator.Es10bIot.Register.{
  add_eim-IsValid, delete_eim-IsValid, update_eim-IsValid, IsValid-with_eims, delete_eim_removes,
  update_eim_writes,
}
use euicc_simulator.Es10bIot.Psmo.{execute_psmo-eims, execute_psmo-IsValid}
use euicc_simulator.Es10bIot.Package.{
  Psmo, PsmoResult, execute_psmo, Eco, add, remove, update, list_eim, other, EcoResult, execute_eco,
  run_psmos, run_ecos, Package, counter_mismatch, results, with_counter, accept, load_euicc_package,
}

run_psmos-eims :
    (ops : List Psmo) (s : EuiccState) → (run_psmos ops s).1.eim_associations ≡ s.eim_associations
unfolding run_psmos
run_psmos-eims [] s = refl
run_psmos-eims (op ∷ ops) s = run_psmos-eims ops (execute_psmo op s).1 ∙ execute_psmo-eims op s

run_psmos-IsValid : (ops : List Psmo) (s : EuiccState) → IsValid s → IsValid (run_psmos ops s).1
unfolding run_psmos
run_psmos-IsValid [] s v = v
run_psmos-IsValid (op ∷ ops) s v =
    run_psmos-IsValid ops (execute_psmo op s).1 (execute_psmo-IsValid op s v)

execute_eco-IsValid : (op : Eco) (s : EuiccState) → IsValid s → IsValid (execute_eco op s).1
unfolding execute_eco
execute_eco-IsValid (add config token) s v = add_eim-IsValid config token s v
execute_eco-IsValid (remove eim_id) s v = delete_eim-IsValid (default eim_id []) s v
execute_eco-IsValid (update eim_id config) s v = update_eim-IsValid (default eim_id []) config s v
execute_eco-IsValid list_eim s v = v
execute_eco-IsValid (other name) s v = v

run_ecos-IsValid : (ops : List Eco) (s : EuiccState) → IsValid s → IsValid (run_ecos ops s).1
unfolding run_ecos
run_ecos-IsValid [] s v = v
run_ecos-IsValid (op ∷ ops) s v =
    run_ecos-IsValid ops (execute_eco op s).1 (execute_eco-IsValid op s v)

IsValid-accept : (s : EuiccState) (i : ℕ) (c : ℤ) → IsValid s → IsValid (accept i c s)
IsValid-accept s i c v =
    IsValid-with_eims s _ v
      (DistinctEims-update_at (with_counter c) (λ b. refl) s.eim_associations i v.distinct)

-- A package keeps the state valid, whether it is accepted or not.
pub load_euicc_package-IsValid :
    (pkg : Package) (s : EuiccState) → IsValid s → IsValid (load_euicc_package pkg s).1
unfolding load_euicc_package
load_euicc_package-IsValid pkg s v =
    let eim_id = default pkg.eim_id [] in
    let counter = default pkg.counter_value (pos 0) in
    elim (Option-cases (find_ref (has_id eim_id) s.eim_associations)) [
      | inl e ↦ rw (e, load_euicc_package) v
      | inr ((i, a), e) ↦ elim (Bool-cases (leb_ℤ counter a.counter_value)) [
        | inl old ↦ rw (e, load_euicc_package, old) v
        | inr new ↦
            rw (e, load_euicc_package, new)
              (run_ecos-IsValid pkg.eco_list _
                (run_psmos-IsValid pkg.psmo_list _ (IsValid-accept s i counter v)))
      ]
    ]

-- The eIM operations that name an identifier to remove or to change.
abbrev pub targets : Text → Eco → Bool
targets eim_id (add config token) = false
targets eim_id (remove j) = bytes_eq eim_id (default j [])
targets eim_id (update j config) = bytes_eq eim_id (default j [])
targets eim_id list_eim = false
targets eim_id (other name) = false

abbrev pub Spares : Text → List Eco → Type 0
Spares eim_id [] = Unit {0}
Spares eim_id (op ∷ ops) = (targets eim_id op ≡ false) × Spares eim_id ops

differ : (a b : Text) → bytes_eq a b ≡ false → a ≢ b
differ a b h e = cc (h, subst (λ t. bytes_eq a t ≡ true) e (bytes_eq_refl a))

add_eim_keeps :
    (eim_id : Text) (config : EimConfig) (token : ℕ) (s : EuiccState) (a : EimAssociation)
    → assoc_of eim_id s.eim_associations ≡ some a
    → assoc_of eim_id (add_eim config token s).1.eim_associations ≡ some a
unfolding add_eim
add_eim_keeps eim_id config token s a h =
    elim (Option-cases (find_ref (has_id (default config.eim_id [])) s.eim_associations)) [
      | inl e ↦ rw (e, add_eim) (assoc_of-append_old eim_id s.eim_associations _ a h)
      | inr ((i, b), e) ↦ rw (e, add_eim) h
    ]

execute_eco_spares :
    (eim_id : Text) (op : Eco) (s : EuiccState) (a : EimAssociation)
    → IsValid s
    → targets eim_id op ≡ false
    → assoc_of eim_id s.eim_associations ≡ some a
    → assoc_of eim_id (execute_eco op s).1.eim_associations ≡ some a
unfolding execute_eco
execute_eco_spares eim_id (add config token) s a v t h = add_eim_keeps eim_id config token s a h
execute_eco_spares eim_id (remove j) s a v t h =
    elim (delete_eim_removes (default j []) s v.distinct) [
      | inl gone ↦ gone.2 eim_id (differ eim_id (default j []) t) ∙ h
      | inr (inl same) ↦ rw same.1 h
      | inr (inr same) ↦ rw same.1 h
    ]
execute_eco_spares eim_id (update j config) s a v t h =
    elim (update_eim_writes (default j []) config s) [
      | inl wrote ↦ wrote.4 eim_id (differ eim_id (default j []) t) ∙ h
      | inr same ↦ rw same.1 h
    ]
execute_eco_spares eim_id list_eim s a v t h = h
execute_eco_spares eim_id (other name) s a v t h = h

run_ecos_spare :
    (eim_id : Text) (ops : List Eco) (s : EuiccState) (a : EimAssociation)
    → IsValid s
    → Spares eim_id ops
    → assoc_of eim_id s.eim_associations ≡ some a
    → assoc_of eim_id (run_ecos ops s).1.eim_associations ≡ some a
unfolding run_ecos
run_ecos_spare eim_id [] s a v t h = h
run_ecos_spare eim_id (op ∷ ops) s a v t h =
    run_ecos_spare eim_id ops (execute_eco op s).1 a (execute_eco-IsValid op s v) t.1
      (execute_eco_spares eim_id op s a v t.0 h)

-- The body of an accepted package leaves the counter that was written.
body_counter :
    (pkg : Package) (s : EuiccState) (i : ℕ) (a : EimAssociation) (c : ℤ)
    → IsValid s
    → Spares (default pkg.eim_id []) pkg.eco_list
    → find_ref (has_id (default pkg.eim_id [])) s.eim_associations ≡ some (i, a)
    → assoc_of
        (default pkg.eim_id [])
        (run_ecos pkg.eco_list (run_psmos pkg.psmo_list (accept i c s)).1).1.eim_associations
      ≡ some (with_counter c a)
body_counter pkg s i a c v t e =
    let eim_id = default pkg.eim_id [] in
    let s₁ = accept i c s in
    let written =
      assoc_of-update_self (with_counter c) (λ b. refl) eim_id s.eim_associations i a e in
    run_ecos_spare eim_id pkg.eco_list (run_psmos pkg.psmo_list s₁).1 (with_counter c a)
      (run_psmos-IsValid pkg.psmo_list s₁ (IsValid-accept s i c v)) t
      (rw (run_psmos-eims pkg.psmo_list s₁) written)

-- A package whose counter does not pass the stored one is refused, and changes nothing.
pub load_euicc_package_stale :
    (pkg : Package) (s : EuiccState) (a : EimAssociation)
    → assoc_of (default pkg.eim_id []) s.eim_associations ≡ some a
    → default pkg.counter_value (pos 0) ≤ℤ a.counter_value
    → load_euicc_package pkg s ≡ (counter_mismatch, s)
unfolding load_euicc_package
load_euicc_package_stale pkg s a h stale =
    let eim_id = default pkg.eim_id [] in
    elim (Option-cases (find_ref (has_id eim_id) s.eim_associations)) [
      | inl e ↦ cc (h, assoc_of-find_none eim_id s.eim_associations e)
      | inr ((i, b), e) ↦
          let same : some b ≡ some a = sym (assoc_of-find eim_id s.eim_associations i b e) ∙ h in
          let b_is_a : b ≡ a = cc same in
          let old : leb_ℤ (default pkg.counter_value (pos 0)) b.counter_value ≡ true =
            rw b_is_a (ground arith) in
          rw (e, load_euicc_package, old)
    ]

-- What an accepted package establishes.
accepted :
    (pkg : Package) (s : EuiccState) (ps : List PsmoResult) (es : List EcoResult)
    → IsValid s
    → Spares (default pkg.eim_id []) pkg.eco_list
    → (load_euicc_package pkg s).0 ≡ results ps es
    → (a : EimAssociation) × (assoc_of (default pkg.eim_id []) s.eim_associations ≡ some a)
      × (a.counter_value <ℤ default pkg.counter_value (pos 0))
      × (assoc_of (default pkg.eim_id []) (load_euicc_package pkg s).1.eim_associations
          ≡ some (with_counter (default pkg.counter_value (pos 0)) a))
unfolding load_euicc_package
accepted pkg s ps es v t h =
    let eim_id = default pkg.eim_id [] in
    let counter = default pkg.counter_value (pos 0) in
    elim (Option-cases (find_ref (has_id eim_id) s.eim_associations)) [
      | inl e ↦ cc (rw (e, load_euicc_package) at h)
      | inr ((i, a), e) ↦ elim (Bool-cases (leb_ℤ counter a.counter_value)) [
        | inl old ↦ cc (rw (e, load_euicc_package, old) at h)
        | inr new ↦ (
          a,
          assoc_of-find eim_id s.eim_associations i a e,
          ground arith,
          rw (e, load_euicc_package, new) (body_counter pkg s i a counter v t e),
        )
      ]
    ]

-- Replay protection: once a package is accepted, in a valid state and with no eIM operation of its
-- own on its eIM, the stored counter was below the package's, and from the state it leaves every
-- package of that eIM whose counter is not above that one is refused and changes nothing.
pub load_euicc_package_no_replay :
    (pkg : Package) (s : EuiccState) (ps : List PsmoResult) (es : List EcoResult)
    → IsValid s
    → Spares (default pkg.eim_id []) pkg.eco_list
    → (load_euicc_package pkg s).0 ≡ results ps es
    → let s' = (load_euicc_package pkg s).1 in
      ((a : EimAssociation) × (assoc_of (default pkg.eim_id []) s.eim_associations ≡ some a)
        × (a.counter_value <ℤ default pkg.counter_value (pos 0)))
      × ((again : Package)
          → default again.eim_id [] ≡ default pkg.eim_id []
          → default again.counter_value (pos 0) ≤ℤ default pkg.counter_value (pos 0)
          → load_euicc_package again s' ≡ (counter_mismatch, s'))
load_euicc_package_no_replay pkg s ps es v t h =
    let (a, before, less, after) = accepted pkg s ps es v t h in
    (
      (a, before, less),
      λ again same stale.
          load_euicc_package_stale again (load_euicc_package pkg s).1
            (with_counter (default pkg.counter_value (pos 0)) a) (rw same after) stale,
    )
