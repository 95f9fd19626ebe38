-- ===== src/Manager/Instances.antt =====
-- The instances of app/services/euicc_manager.py as a dictionary from EIDs to eUICCs.
use euicc_simulator.Prelude.{
  ◌≡◌, inl, inr, refl, Bool, false, not, Option, none, some, List, [], ◌∷◌, ◌++◌, Text, bytes_eq,
  bytes_eq_refl, filter, arith, Bool-cases, Option-cases,
}
use euicc_simulator.Prelude.Outcome.{Outcome, returned, raised}
use euicc_simulator.Euicc.{EuiccState}
use euicc_simulator.Es10b.Engine.{Engine}
use euicc_simulator.Manager.{
  EuiccInstance, Instances, Preload, get_euicc, new_instance, created_state, preload, stored,
  create_euicc, create_euicc_from_state, delete_euicc,
}

get_euicc-append :
    (eid : Text) (m : Instances) (i : EuiccInstance)
    → get_euicc eid m ≡ none
    → get_euicc eid (m ++ (eid, i) ∷ []) ≡ some i
unfolding get_euicc
get_euicc-append eid [] i absent = rw (bytes_eq_refl eid) refl
get_euicc-append eid ((key, j) ∷ m) i absent = elim (Bool-cases (bytes_eq key eid)) [
  | inl h ↦ absurd (ground (arith, h, absent))
  | inr h ↦
      let later : get_euicc eid m ≡ none = ground (arith, h, absent) in
      rw (h, get_euicc-append eid m i later) refl
]

get_euicc-append_other :
    (eid other : Text) (m : Instances) (i : EuiccInstance)
    → bytes_eq eid other ≡ false
    → get_euicc other (m ++ (eid, i) ∷ []) ≡ get_euicc other m
unfolding get_euicc
get_euicc-append_other eid other [] i differ = rw differ refl
get_euicc-append_other eid other ((key, j) ∷ m) i differ =
    rw (get_euicc-append_other eid other m i differ) refl

abbrev is_other : Text → Text × EuiccInstance → Bool
is_other eid entry = not (bytes_eq entry.0 eid)

-- Deleting what was appended under a new EID gives back the list.
filter-append :
    (eid : Text) (m : Instances) (i : EuiccInstance)
    → get_euicc eid m ≡ none
    → filter (is_other eid) (m ++ (eid, i) ∷ []) ≡ m
unfolding get_euicc
filter-append eid [] i absent = rw (bytes_eq_refl eid) refl
filter-append eid ((key, j) ∷ m) i absent = elim (Bool-cases (bytes_eq key eid)) [
  | inl h ↦ absurd (ground (arith, h, absent))
  | inr h ↦
      let later : get_euicc eid m ≡ none = ground (arith, h, absent) in
      rw (h, filter-append eid m i later) refl
]

get_euicc-append_present :
    (eid : Text) (m more : Instances) (i : EuiccInstance)
    → get_euicc eid m ≡ some i
    → get_euicc eid (m ++ more) ≡ some i
unfolding get_euicc
get_euicc-append_present eid [] more i h = absurd (ground (arith, h))
get_euicc-append_present eid ((key, j) ∷ m) more i h = elim (Bool-cases (bytes_eq key eid)) [
  | inl same ↦ rw same (ground (arith, same, h))
  | inr other ↦
      let later : get_euicc eid m ≡ some i = ground (arith, other, h) in
      rw other (get_euicc-append_present eid m more i later)
]

stored_keeps :
    (eid other : Text) (s : Option EuiccState) (e : Option Engine) (m : Instances)
    (i : EuiccInstance)
    → get_euicc other m ≡ some i
    → get_euicc other (stored eid s e m).1 ≡ some i
stored_keeps eid other none e m i h = h
stored_keeps eid other (some s) none m i h = h
stored_keeps eid other (some s) (some e) m i h =
    get_euicc-append_present other m ((eid, new_instance s e) ∷ []) i h

-- What a call that creates an instance for `eid` can do to the dictionary `m`.
abbrev pub Added : Text → Instances → Outcome EuiccInstance × Instances → Type 0
Added eid m (raised, m') = m' ≡ m
Added eid m (returned i, m') =
    (get_euicc eid m' ≡ some i)
    × ((other : Text) → bytes_eq eid other ≡ false → get_euicc other m' ≡ get_euicc other m)
    × ((delete_euicc eid m').1 ≡ (delete_euicc eid m).1)

stored-Added :
    (eid : Text) (s : Option EuiccState) (e : Option Engine) (m : Instances)
    → get_euicc eid m ≡ none
    → Added eid m (stored eid s e m)
unfolding delete_euicc
stored-Added eid none e m absent = refl
stored-Added eid (some s) none m absent = refl
stored-Added eid (some s) (some e) m absent =
    let made = get_euicc-append eid m (new_instance s e) absent in
    (
      made,
      λ other differ. get_euicc-append_other eid other m (new_instance s e) differ,
      rw (delete_euicc, made, absent) (filter-append eid m (new_instance s e) absent),
    )

module _ (initialize : Text → Option Engine) where
  -- `create_euicc` either raises and leaves the instances as they are, or returns the instance that
  -- `get_euicc` gives for the EID from then on; the other EIDs keep their instances, and deleting the
  -- EID afterwards gives what deleting it before would have given.
  pub create_euicc_adds :
      (eid address : Text) (eim_id eim_fqdn : Option Text) (preloads : List Preload) (m : Instances)
      → Added eid m (create_euicc initialize eid address eim_id eim_fqdn preloads m)
  unfolding create_euicc
  create_euicc_adds eid address eim_id eim_fqdn preloads m = elim (Option-cases (get_euicc eid m)) [
    | inl absent ↦
        rw (Added, create_euicc, absent)
          (stored-Added eid (preload address preloads (created_state eid address eim_id eim_fqdn))
            (initialize eid) m absent)
    | inr (i, present) ↦ rw (create_euicc, present) (present, λ other differ. refl, refl)
  ]

  -- No state that is loaded replaces an instance.
  pub create_euicc_from_state_keeps :
      (s : EuiccState) (other : Text) (m : Instances) (i : EuiccInstance)
      → get_euicc other m ≡ some i
      → get_euicc other (create_euicc_from_state initialize s m).1 ≡ some i
  unfolding create_euicc_from_state
  create_euicc_from_state_keeps s other m i h = elim (Option-cases (get_euicc s.eid m)) [
    | inl absent ↦
        rw (create_euicc_from_state, absent)
          (stored_keeps s.eid other (some s) (initialize s.eid) m i h)
    | inr (j, present) ↦ rw (create_euicc_from_state, present) h
  ]
