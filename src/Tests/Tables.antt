-- ===== src/Tests/Tables.antt =====
-- Tables that are lists, which have the laws that app/models/database.py relies on.
use euicc_simulator.Prelude.{
  ◌≡◌, refl, ap, ◌∙◌, Bool, true, false, not, Option, none, some, List, [], ◌∷◌, ◌++◌, Text, arith,
  filter, bytes_eq, bytes_eq_refl, bytes_eq→eq, Bool-cases, inl, inr,
}
use euicc_simulator.Database.{DbEuicc, DbProfile, DbEimAssociation, RowsOf, Tables}

module _ {R : Type 0} (owner : R → Text) where
  abbrev pub owned : Text → R → Bool
  owned eid r = bytes_eq (owner r) eid

  abbrev pub others : Text → R → Bool
  others eid r = not (bytes_eq (owner r) eid)

  pub filter-others : (eid : Text) (d : List R) → filter (owned eid) (filter (others eid) d) ≡ []
  filter-others eid [] = refl
  filter-others eid (r ∷ d) = elim (Bool-cases (bytes_eq (owner r) eid)) [
    | inl h ↦ rw (h) (filter-others eid d)
    | inr h ↦ rw (h, filter-others eid d, h) refl
  ]

  distinct_owner :
      (eid other : Text) (r : R)
      → bytes_eq eid other ≡ false
      → bytes_eq (owner r) other ≡ true
      → bytes_eq (owner r) eid ≡ false
  distinct_owner eid other r differ h = elim (Bool-cases (bytes_eq (owner r) eid)) [
    | inr apart ↦ apart
    | inl same ↦
        let is_eid = bytes_eq→eq (owner r) eid same in absurd (ground (arith, is_eid, h, differ))
  ]

  pub filter-others_other :
      (eid other : Text) (d : List R)
      → bytes_eq eid other ≡ false
      → filter (owned other) (filter (others eid) d) ≡ filter (owned other) d
  filter-others_other eid other [] differ = refl
  filter-others_other eid other (r ∷ d) differ =
      let later = filter-others_other eid other d differ in
      elim (Bool-cases (bytes_eq (owner r) other)) [
        | inl h ↦ rw (distinct_owner eid other r differ h, h, later) refl
        | inr h ↦ elim (Bool-cases (bytes_eq (owner r) eid)) [
          | inl same ↦ rw (same, h) later
          | inr apart ↦ rw (apart, h) later
        ]
      ]

  pub filter-append_own :
      (eid : Text) (r : R) (d : List R)
      → bytes_eq (owner r) eid ≡ true
      → filter (owned eid) (d ++ r ∷ []) ≡ filter (owned eid) d ++ r ∷ []
  filter-append_own eid r [] h = rw h refl
  filter-append_own eid r (x ∷ d) h = elim (Bool-cases (bytes_eq (owner x) eid)) [
    | inl own ↦ rw (own, filter-append_own eid r d h) refl
    | inr other ↦ rw (other, filter-append_own eid r d h) refl
  ]

  pub filter-append_other :
      (eid : Text) (r : R) (d : List R)
      → bytes_eq (owner r) eid ≡ false
      → filter (owned eid) (d ++ r ∷ []) ≡ filter (owned eid) d
  filter-append_other eid r [] h = rw h refl
  filter-append_other eid r (x ∷ d) h = rw (filter-append_other eid r d h) refl

  abbrev pub list_rows : RowsOf (List R) R owner
  list_rows = record {
    rows = λ eid d. filter (owned eid) d;
    clear = λ eid d. filter (others eid) d;
    add = λ r d. d ++ r ∷ [];
    rows-clear = filter-others;
    rows-add = λ r d. filter-append_own (owner r) r d (bytes_eq_refl (owner r));
    rows-clear_other = filter-others_other;
    rows-add_other = λ r other d differ. filter-append_other other r d differ;
  }

abbrev pub first_row : List DbEuicc → Option DbEuicc
first_row [] = none
first_row (r ∷ rs) = some r

abbrev pub euicc_rows : RowsOf (List DbEuicc) DbEuicc (λ r. r.eid)
euicc_rows = list_rows (λ r. r.eid)

abbrev pub put_row : DbEuicc → List DbEuicc → List DbEuicc
put_row r d = euicc_rows.add r (euicc_rows.clear r.eid d)

pub some_keeps :
    (d d' : List DbEuicc × List DbProfile × List DbEimAssociation) → some d ≡ some d' → d' ≡ d
some_keeps d d' e = cc

pub first-put_row :
    (r : DbEuicc) (d : List DbEuicc) → first_row (euicc_rows.rows r.eid (put_row r d)) ≡ some r
first-put_row r d = ap first_row (
    euicc_rows.rows-add r (euicc_rows.clear r.eid d)
    ∙ ap (λ rs. rs ++ r ∷ []) (euicc_rows.rows-clear r.eid d))

pub first-put_row_other :
    (r : DbEuicc) (other : Text) (d : List DbEuicc)
    → bytes_eq r.eid other ≡ false
    → first_row (euicc_rows.rows other (put_row r d)) ≡ first_row (euicc_rows.rows other d)
first-put_row_other r other d differ = ap first_row (
    euicc_rows.rows-add_other r other (euicc_rows.clear r.eid d) differ
    ∙ euicc_rows.rows-clear_other r.eid other d differ)

abbrev pub tables : Tables
tables = record {
  D = List DbEuicc;
  Profiles = List DbProfile;
  Associations = List DbEimAssociation;
  euiccs = λ d. d;
  first = λ eid d. first_row (euicc_rows.rows eid d);
  put = put_row;
  commit = λ d. some d;
  commit_keeps = some_keeps;
  profiles = list_rows (λ r. r.euicc_eid);
  associations = list_rows (λ r. r.euicc_eid);
  first-put = first-put_row;
  first-put_other = first-put_row_other;
}
