-- ===== src/Database/Saved.antt =====
-- What app/models/database.py reads back of what it wrote.
use euicc_simulator.Prelude.{
  ◌≡◌, inl, inr, refl, sym, ap, ◌∙◌, subst, false, Option, none, some, List, [], ◌∷◌, ◌++◌, map,
  append_assoc, append-nil, Text, bytes_eq, bytes_eq→eq, arith, Bool-cases,
}
use euicc_simulator.Euicc.{
  ProfileState, disabled, enabled, ProfileClass, test, provisioning, operational, ProfileSlot,
  EimAssociation, EuiccState, new_euicc,
}
use euicc_simulator.Manager.{EuiccInstance, Instances, get_euicc, state_of, class_of}
use euicc_simulator.Manager.Entries.{DistinctKeys}
use euicc_simulator.Database.{
  DbEuicc, DbProfile, DbEimAssociation, Tables, state_value, class_value, euicc_row, profile_row,
  association_row, profile_of, profiles_of, associations_of, euicc_of, add_profiles,
  add_associations, persist_one, persist_all, persist_euiccs, load_row, Database,
}
use euicc_simulator.Database.Versions.{parse_version-format_version}

-- What a database keeps of a state.
abbrev pub saved : Text → EuiccState → EuiccState
saved eid s = record s {
  eid = eid;
  notifications = [];
  active_session = none;
  total_volatile = (new_euicc eid).total_volatile;
  free_volatile = (new_euicc eid).free_volatile;
  uicc_capability = (new_euicc eid).uicc_capability;
  rsp_capability = (new_euicc eid).rsp_capability;
}

state_of-state_value : (st : ProfileState) → state_of (state_value st) ≡ some st
unfolding bytes_eq
state_of-state_value disabled = refl
state_of-state_value enabled = refl

class_of-class_value : (c : ProfileClass) → class_of (class_value c) ≡ some c
unfolding bytes_eq
class_of-class_value test = refl
class_of-class_value provisioning = refl
class_of-class_value operational = refl

profile_of-profile_row : (eid : Text) (p : ProfileSlot) → profile_of (profile_row eid p) ≡ some p
profile_of-profile_row eid p =
    rw (profile_of, state_of-state_value p.state, class_of-class_value p.profile_class) refl

profiles_of-rows :
    (eid : Text) (ps : List ProfileSlot) → profiles_of (map (profile_row eid) ps) ≡ some ps
profiles_of-rows eid [] = refl
profiles_of-rows eid (p ∷ ps) = rw (profile_of-profile_row eid p, profiles_of-rows eid ps) refl

associations_of-rows :
    (eid : Text) (as' : List EimAssociation) → associations_of (map (association_row eid) as') ≡ as'
associations_of-rows eid [] = refl
associations_of-rows eid (a ∷ as') = rw (associations_of-rows eid as') refl

euicc_of-rows :
    (eid : Text) (s : EuiccState)
    → euicc_of
        (euicc_row eid s)
        (map (profile_row eid) s.profiles)
        (map (association_row eid) s.eim_associations)
      ≡ some (saved eid s)
unfolding euicc_of new_euicc
euicc_of-rows eid s =
    rw
      (
        parse_version-format_version s.svn,
        parse_version-format_version s.profile_version,
        parse_version-format_version s.firmware_version,
        parse_version-format_version s.iot_version,
        profiles_of-rows eid s.profiles,
        associations_of-rows eid s.eim_associations,
      )
      refl

module _ (t : Tables) where
  -- What the tables hold for one EID.
  abbrev View : Type 0
  View = Option DbEuicc × List DbProfile × List DbEimAssociation

  abbrev view : Text → Database t → View
  view eid (d, ps, as') = (t.first eid d, t.profiles.rows eid ps, t.associations.rows eid as')

  abbrev view_of : Text → EuiccState → View
  view_of eid s = (
    some (euicc_row eid s),
    map (profile_row eid) s.profiles,
    map (association_row eid) s.eim_associations,
  )

  rows-add_profiles :
      (eid : Text) (ps : List ProfileSlot) (d : t.Profiles)
      → t.profiles.rows eid (add_profiles t eid ps d)
        ≡ t.profiles.rows eid d ++ map (profile_row eid) ps
  rows-add_profiles eid [] d = sym (append-nil (t.profiles.rows eid d))
  rows-add_profiles eid (p ∷ ps) d =
      rows-add_profiles eid ps (t.profiles.add (profile_row eid p) d)
      ∙ ap (λ rs. rs ++ map (profile_row eid) ps) (t.profiles.rows-add (profile_row eid p) d)
      ∙ append_assoc (t.profiles.rows eid d) (profile_row eid p ∷ []) (map (profile_row eid) ps)

  rows-add_associations :
      (eid : Text) (as' : List EimAssociation) (d : t.Associations)
      → t.associations.rows eid (add_associations t eid as' d)
        ≡ t.associations.rows eid d ++ map (association_row eid) as'
  rows-add_associations eid [] d = sym (append-nil (t.associations.rows eid d))
  rows-add_associations eid (a ∷ as') d =
      rows-add_associations eid as' (t.associations.add (association_row eid a) d)
      ∙ ap (λ rs. rs ++ map (association_row eid) as')
          (t.associations.rows-add (association_row eid a) d)
      ∙ append_assoc (t.associations.rows eid d) (association_row eid a ∷ [])
          (map (association_row eid) as')

  rows-add_profiles_other :
      (eid other : Text) (ps : List ProfileSlot) (d : t.Profiles)
      → bytes_eq eid other ≡ false
      → t.profiles.rows other (add_profiles t eid ps d) ≡ t.profiles.rows other d
  rows-add_profiles_other eid other [] d differ = refl
  rows-add_profiles_other eid other (p ∷ ps) d differ =
      rows-add_profiles_other eid other ps (t.profiles.add (profile_row eid p) d) differ
      ∙ t.profiles.rows-add_other (profile_row eid p) other d differ

  rows-add_associations_other :
      (eid other : Text) (as' : List EimAssociation) (d : t.Associations)
      → bytes_eq eid other ≡ false
      → t.associations.rows other (add_associations t eid as' d) ≡ t.associations.rows other d
  rows-add_associations_other eid other [] d differ = refl
  rows-add_associations_other eid other (a ∷ as') d differ =
      rows-add_associations_other eid other as' (t.associations.add (association_row eid a) d)
        differ
      ∙ t.associations.rows-add_other (association_row eid a) other d differ

  view-persist_one :
      (eid : Text) (s : EuiccState) (d : Database t)
      → view eid (persist_one t eid s d) ≡ view_of eid s
  view-persist_one eid s (d, ps, as') =
      rw
        (
          t.first-put (euicc_row eid s) d,
          rows-add_profiles eid s.profiles (t.profiles.clear eid ps),
          rows-add_associations eid s.eim_associations (t.associations.clear eid as'),
          t.profiles.rows-clear eid ps,
          t.associations.rows-clear eid as',
        )
        refl

  view-persist_one_other :
      (eid other : Text) (s : EuiccState) (d : Database t)
      → bytes_eq eid other ≡ false
      → view other (persist_one t eid s d) ≡ view other d
  view-persist_one_other eid other s (d, ps, as') differ =
      rw
        (
          t.first-put_other (euicc_row eid s) other d differ,
          rows-add_profiles_other eid other s.profiles (t.profiles.clear eid ps) differ,
          rows-add_associations_other eid other s.eim_associations (t.associations.clear eid as')
              differ,
          t.profiles.rows-clear_other eid other ps differ,
          t.associations.rows-clear_other eid other as' differ,
        )
        refl

  view-persist_all_absent :
      (eid : Text) (m : Instances) (d : Database t)
      → get_euicc eid m ≡ none
      → view eid (persist_all t m d) ≡ view eid d
  unfolding persist_all get_euicc
  view-persist_all_absent eid [] d absent = refl
  view-persist_all_absent eid ((key, i) ∷ m) d absent = elim (Bool-cases (bytes_eq key eid)) [
    | inl h ↦ absurd (ground (arith, h, absent))
    | inr h ↦
        let later : get_euicc eid m ≡ none = ground (arith, h, absent) in
        view-persist_all_absent eid m (persist_one t key i.euicc d) later
        ∙ view-persist_one_other key eid i.euicc d h
  ]

  view-persist_all :
      (eid : Text) (m : Instances) (i : EuiccInstance) (d : Database t)
      → DistinctKeys m
      → get_euicc eid m ≡ some i
      → view eid (persist_all t m d) ≡ view_of eid i.euicc
  unfolding persist_all get_euicc
  view-persist_all eid [] i d distinct h = absurd (ground (arith, h))
  view-persist_all eid ((key, j) ∷ m) i d (new, distinct) h = elim (Bool-cases (bytes_eq key eid)) [
    | inl same ↦
        let is_key : key ≡ eid = bytes_eq→eq key eid same in
        let is_it : j ≡ i = ground (arith, same, h) in
        let absent : get_euicc eid m ≡ none = rw (sym is_key) new in
        view-persist_all_absent eid m (persist_one t key j.euicc d) absent
        ∙ subst (λ k. view eid (persist_one t k j.euicc d) ≡ view_of eid i.euicc) (sym is_key)
            (subst (λ k. view eid (persist_one t eid k.euicc d) ≡ view_of eid i.euicc) (sym is_it)
              (view-persist_one eid i.euicc d))
    | inr other ↦
        let later : get_euicc eid m ≡ some i = ground (arith, other, h) in
        view-persist_all eid m i (persist_one t key j.euicc d) distinct later
  ]

  -- If the commit succeeds, the row of an instance is loaded as what is saved of its state.
  pub load_row-persist_euiccs :
      (eid : Text) (m : Instances) (i : EuiccInstance) (d d' : Database t)
      → DistinctKeys m
      → get_euicc eid m ≡ some i
      → t.commit (persist_all t m d) ≡ some d'
      → (persist_euiccs t m (some d) ≡ some d')
        × (r : DbEuicc) × (t.first eid d'.0 ≡ some r)
        × (load_row t r d' ≡ some (saved eid i.euicc))
  unfolding persist_euiccs load_row
  load_row-persist_euiccs eid m i d d' distinct here ok =
      let held : view eid d' ≡ view_of eid i.euicc =
        subst (λ x. view eid x ≡ view_of eid i.euicc)
          (sym (t.commit_keeps (persist_all t m d) d' ok))
          (view-persist_all eid m i d distinct here) in
      (
        rw ok refl,
        euicc_row eid i.euicc,
        ap (λ v. v.0) held,
        rw (ap (λ v. v.1) held, ap (λ v. v.2) held) (euicc_of-rows eid i.euicc),
      )
