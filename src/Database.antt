-- ===== src/Database.antt =====
-- app/models/database.py: what is written of each eUICC and what is read back. The tables, which
-- SQLAlchemy keeps, are a parameter (`Tables`), with the laws of reading after writing that the code
-- relies on. Versions, Saved and Commits hold what the operations do.
mod Rows
pub mod Versions
pub mod Saved
pub mod Commits
unfoldable pub use Rows.*
use euicc_simulator.Prelude.{
  ◌>>=◌, zero, suc, ◌*◌, ◌≡◌, Bool, true, false, Option, none, some, List, [], ◌∷◌, ◌++◌, Text,
  codes, bytes_eq,
}
use euicc_simulator.Prelude.Outcome.{Outcome, returned, raised}
use euicc_simulator.Euicc.{ProfileSlot, EimAssociation, EuiccState}
use euicc_simulator.Es10b.Engine.{Engine}
use euicc_simulator.Manager.{EuiccInstance, Instances, create_euicc_from_state}

-- The rows of one eUICC in a table: the relationship's list, `filter_by(euicc_eid=…).delete()` and
-- `session.add`.
pub record RowsOf (D R : Type 0) (owner : R → Text) : Type 0 where
  pub rows : Text → D → List R
  pub clear : Text → D → D
  pub add : R → D → D
  pub rows-clear : (eid : Text) (d : D) → rows eid (clear eid d) ≡ []
  pub rows-add : (r : R) (d : D) → rows (owner r) (add r d) ≡ rows (owner r) d ++ r ∷ []
  pub rows-clear_other :
      (eid other : Text) (d : D)
      → bytes_eq eid other ≡ false
      → rows other (clear eid d) ≡ rows other d
  pub rows-add_other :
      (r : R) (other : Text) (d : D)
      → bytes_eq (owner r) other ≡ false
      → rows other (add r d) ≡ rows other d

-- The database within a session: `euiccs` is `query(DbEuicc).all()`, `first` a `filter_by(eid=…)
-- .first()`, `put` an added or changed row at the next query, `commit` the end, which may raise.
pub record Tables : Type 1 where
  pub D : Type 0
  pub Profiles : Type 0
  pub Associations : Type 0
  pub euiccs : D → List DbEuicc
  pub first : Text → D → Option DbEuicc
  pub put : DbEuicc → D → D
  pub commit : D × Profiles × Associations → Option (D × Profiles × Associations)
  pub commit_keeps : (d d' : D × Profiles × Associations) → commit d ≡ some d' → d' ≡ d
  pub profiles : RowsOf Profiles DbProfile (λ r. r.euicc_eid)
  pub associations : RowsOf Associations DbEimAssociation (λ r. r.euicc_eid)
  pub first-put : (r : DbEuicc) (d : D) → first r.eid (put r d) ≡ some r
  pub first-put_other :
      (r : DbEuicc) (other : Text) (d : D)
      → bytes_eq r.eid other ≡ false
      → first other (put r d) ≡ first other d

module _ (t : Tables) where
  abbrev pub Database : Type 0
  Database = t.D × t.Profiles × t.Associations

  abbrev pub add_profiles : Text → List ProfileSlot → t.Profiles → t.Profiles
  add_profiles eid [] d = d
  add_profiles eid (p ∷ ps) d = add_profiles eid ps (t.profiles.add (profile_row eid p) d)

  abbrev pub add_associations : Text → List EimAssociation → t.Associations → t.Associations
  add_associations eid [] d = d
  add_associations eid (a ∷ as') d =
      add_associations eid as' (t.associations.add (association_row eid a) d)

  -- The body of the loop over the instances. A row that is found is overwritten, every column but its
  -- key; one that is not is added.
  abbrev pub persist_one : Text → EuiccState → Database → Database
  persist_one eid s (d, ps, as') = (
    t.put (euicc_row eid s) d,
    add_profiles eid s.profiles (t.profiles.clear eid ps),
    add_associations eid s.eim_associations (t.associations.clear eid as'),
  )

  unfoldable pub persist_all : Instances → Database → Database
  persist_all [] d = d
  persist_all ((eid, i) ∷ rest) d = persist_all rest (persist_one eid i.euicc d)

  -- The database once the session is closed: a commit that raises is rolled back.
  abbrev pub or_rolled_back : Database → Option Database → Database
  or_rolled_back d none = d
  or_rolled_back d (some d') = d'

  -- No database is there before `init_db`.
  unfoldable pub persist_euiccs : Instances → Option Database → Option Database
  unfolding persist_all
  persist_euiccs instances none = none
  persist_euiccs instances (some d) = some (or_rolled_back d (t.commit (persist_all instances d)))

  -- What a row and the rows it relates to are loaded as.
  unfoldable pub load_row : DbEuicc → Database → Option EuiccState
  unfolding euicc_of
  load_row r (d, ps, as') = euicc_of r (t.profiles.rows r.eid ps) (t.associations.rows r.eid as')

  module _ (initialize : Text → Option Engine) where
    -- One round of the loop over the rows; a ValueError leaves the function.
    abbrev pub load_one : Option EuiccState → Instances → Outcome EuiccInstance × Instances
    load_one none instances = (raised, instances)
    load_one (some s) instances = create_euicc_from_state initialize s instances

    abbrev pub load_rows : List DbEuicc → Database → Instances → Outcome Bool × Instances
    load_rows [] d instances = (returned true, instances)
    load_rows (r ∷ rs) d instances =
        let (outcome, instances') = load_one (load_row r d) instances in
        let rest = load_rows rs d instances' in
        elim outcome [ raised ↦ (raised, instances') | returned i ↦ rest ]

    unfoldable pub load_persisted_euiccs : Option Database → Instances → Outcome Bool × Instances
    load_persisted_euiccs none instances = (returned true, instances)
    load_persisted_euiccs (some (d, ps, as')) instances =
        load_rows (t.euiccs d) (d, ps, as') instances
