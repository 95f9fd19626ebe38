-- ===== src/Es10bIot/Register.antt =====
-- What AddEim, DeleteEim and UpdateEim of app/es10/es10b_iot.py do to the associations, by how they
-- end, and that they keep the state valid.
use euicc_simulator.Prelude.{
  ℕ, ◌≤◌, ◌≡◌, ◌≢◌, ◌⊎◌, refl, sym, ◌∙◌, true, false, none, some, List, [], ◌∷◌, inl, inr, Text,
  arith, bytes_eq_refl, bytes_eq→eq, default, find_ref, find_ref_lem, find_ref-none, length,
  length-pop_at, Option-cases, Bool-cases, leb,
}
use euicc_simulator.Euicc.{EimAssociation, has_id, EuiccState}
use euicc_simulator.Euicc.Valid.{DistinctEims, IsValid}
use euicc_simulator.Es10bIot.{
  EimConfig, new_association, updated, add_eim, delete_eim, update_eim, add_initial_eim,
}
use euicc_simulator.Es10bIot.Eims.{
  assoc_of, assoc_of-find, assoc_of-find_none, assoc_of-append_new, assoc_of-update_self,
  assoc_of-update_other, assoc_of-pop_other, assoc_of-pop_self, DistinctEims-update_at,
  DistinctEims-pop_at, DistinctEims-append,
}

pub IsValid-with_eims :
    (s : EuiccState) (as' : List EimAssociation)
    → IsValid s
    → DistinctEims as'
    → IsValid (record s { eim_associations = as' })
IsValid-with_eims s as' v d = record {
  one_enabled = v.one_enabled;
  numbered = v.numbered;
  distinct = d;
  room = v.room;
}

-- AddEim registers an identifier that is new, with result 0 and the token drawn, and the new
-- association is then found under it; an identifier that is taken gives result 2 and no change.
pub add_eim_registers :
    (config : EimConfig) (token : ℕ) (s : EuiccState)
    → let ((code, drawn), s') = add_eim config token s in
      let eim_id = default config.eim_id [] in
      ((code ≡ 0)
        × (drawn ≡ some token)
        × (assoc_of eim_id s.eim_associations ≡ none)
        × (assoc_of eim_id s'.eim_associations ≡ some (new_association config token)))
      ⊎ ((code ≡ 2) × (s' ≡ s) × (assoc_of eim_id s.eim_associations ≢ none))
unfolding add_eim
add_eim_registers config token s =
    let eim_id = default config.eim_id [] in
    elim (Option-cases (find_ref (has_id eim_id) s.eim_associations)) [
      | inl e ↦
          let before = assoc_of-find_none eim_id s.eim_associations e in
          rw (e, add_eim)
            (inl (
              refl,
              refl,
              before,
              assoc_of-append_new eim_id s.eim_associations _ before ∙ rw (bytes_eq_refl eim_id),
            ))
      | inr ((i, a), e) ↦
          rw (e, add_eim)
            (inr (refl, refl, λ n. cc (n, assoc_of-find eim_id s.eim_associations i a e)))
    ]

pub add_eim-IsValid :
    (config : EimConfig) (token : ℕ) (s : EuiccState)
    → IsValid s
    → IsValid (add_eim config token s).1
unfolding add_eim
add_eim-IsValid config token s v =
    let eim_id = default config.eim_id [] in
    elim (Option-cases (find_ref (has_id eim_id) s.eim_associations)) [
      | inl e ↦
          rw (e, add_eim)
            (IsValid-with_eims s _ v (
              DistinctEims-append s.eim_associations (new_association config token) v.distinct
                (find_ref-none (has_id eim_id) s.eim_associations e)))
      | inr ((i, a), e) ↦ rw (e, add_eim) v
    ]

pub other_id :
    (eim_id j : Text) (a : EimAssociation)
    → has_id eim_id a ≡ true
    → j ≢ eim_id
    → has_id j a ≡ false
other_id eim_id j a h ne = elim (Bool-cases (has_id j a)) [
  | inl e ↦ absurd (ne (sym (bytes_eq→eq a.eim_id j e) ∙ bytes_eq→eq a.eim_id eim_id h))
  | inr e ↦ e
]

-- DeleteEim, of a state with distinct identifiers: with result 0 the identifier is gone, every other
-- one is found as before, and an association is left; otherwise nothing has changed, and the
-- identifier was not there (1) or was the only one (2).
pub delete_eim_removes :
    (eim_id : Text) (s : EuiccState)
    → DistinctEims s.eim_associations
    → let (code, s') = delete_eim eim_id s in
      ((code ≡ 0)
        × (assoc_of eim_id s'.eim_associations ≡ none)
        × ((j : Text) → j ≢ eim_id → assoc_of j s'.eim_associations ≡ assoc_of j s.eim_associations)
        × (1 ≤ length s'.eim_associations))
      ⊎ ((code ≡ 1) × (s' ≡ s) × (assoc_of eim_id s.eim_associations ≡ none))
      ⊎ ((code ≡ 2) × (s' ≡ s) × (length s.eim_associations ≡ 1))
unfolding delete_eim
delete_eim_removes eim_id s d = elim (Option-cases (find_ref (has_id eim_id) s.eim_associations)) [
  | inl e ↦
      rw (e, delete_eim) (inr (inl (refl, refl, assoc_of-find_none eim_id s.eim_associations e)))
  | inr ((i, a), e) ↦
      let l = find_ref_lem (has_id eim_id) s.eim_associations i a e in
      let shorter = length-pop_at s.eim_associations i a l.0 in
      elim (Bool-cases (leb (length s.eim_associations) 1)) [
        | inl last ↦ rw (e, delete_eim, last) (inr (inr (refl, refl, ground arith)))
        | inr more ↦
            rw (e, delete_eim, more)
              (inl (
                refl,
                assoc_of-pop_self eim_id s.eim_associations i a d e,
                (λ j ne.
                    assoc_of-pop_other j s.eim_associations i a l.0 (other_id eim_id j a l.1 ne)),
                ground arith,
              ))
      ]
]

pub delete_eim-IsValid :
    (eim_id : Text) (s : EuiccState) → IsValid s → IsValid (delete_eim eim_id s).1
unfolding delete_eim
delete_eim-IsValid eim_id s v = elim (Option-cases (find_ref (has_id eim_id) s.eim_associations)) [
  | inl e ↦ rw (e, delete_eim) v
  | inr ((i, a), e) ↦ elim (Bool-cases (leb (length s.eim_associations) 1)) [
    | inl last ↦ rw (e, delete_eim, last) v
    | inr more ↦
        rw (e, delete_eim, more)
          (IsValid-with_eims s _ v (DistinctEims-pop_at s.eim_associations i v.distinct))
  ]
]

-- UpdateEim of a registered identifier returns 0 and writes the keys given to that association
-- alone; of any other it returns 1 and changes nothing.
pub update_eim_writes :
    (eim_id : Text) (config : EimConfig) (s : EuiccState)
    → let (code, s') = update_eim eim_id config s in
      ((a : EimAssociation) × (code ≡ 0)
        × (assoc_of eim_id s.eim_associations ≡ some a)
        × (assoc_of eim_id s'.eim_associations ≡ some (updated config a))
        × ((j : Text)
            → j ≢ eim_id
            → assoc_of j s'.eim_associations ≡ assoc_of j s.eim_associations))
      ⊎ ((code ≡ 1) × (s' ≡ s) × (assoc_of eim_id s.eim_associations ≡ none))
unfolding update_eim
update_eim_writes eim_id config s =
    elim (Option-cases (find_ref (has_id eim_id) s.eim_associations)) [
      | inl e ↦
          rw (e, update_eim) (inr (refl, refl, assoc_of-find_none eim_id s.eim_associations e))
      | inr ((i, a), e) ↦
          let l = find_ref_lem (has_id eim_id) s.eim_associations i a e in
          rw (e, update_eim)
            (inl (
              a,
              refl,
              assoc_of-find eim_id s.eim_associations i a e,
              assoc_of-update_self (updated config) (λ b. refl) eim_id s.eim_associations i a e,
              (λ j ne.
                  assoc_of-update_other (updated config) (λ b. refl) j s.eim_associations i a l.0
                    (other_id eim_id j a l.1 ne)),
            ))
    ]

pub update_eim-IsValid :
    (eim_id : Text) (config : EimConfig) (s : EuiccState)
    → IsValid s
    → IsValid (update_eim eim_id config s).1
unfolding update_eim
update_eim-IsValid eim_id config s v =
    elim (Option-cases (find_ref (has_id eim_id) s.eim_associations)) [
      | inl e ↦ rw (e, update_eim) v
      | inr ((i, a), e) ↦
          rw (e, update_eim)
            (IsValid-with_eims s _ v
              (DistinctEims-update_at (updated config) (λ b. refl) s.eim_associations i v.distinct))
    ]

pub add_initial_eim-IsValid :
    (configs : List (EimConfig × ℕ)) (s : EuiccState)
    → IsValid s
    → IsValid (add_initial_eim configs s).1
unfolding add_initial_eim
add_initial_eim-IsValid [] s v = v
add_initial_eim-IsValid ((config, token) ∷ rest) s v =
    add_initial_eim-IsValid rest (add_eim config token s).1 (add_eim-IsValid config token s v)
