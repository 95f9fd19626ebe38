-- ===== src/Database/Commits.antt =====
-- How `persist_euiccs` of app/models/database.py ends.
use euicc_simulator.Prelude.{◌≡◌, ◌⊎◌, inl, inr, refl, none, some, Text, Option-cases}
use euicc_simulator.Manager.{EuiccInstance, Instances, get_euicc}
use euicc_simulator.Manager.Entries.{DistinctKeys}
use euicc_simulator.Database.{DbEuicc, Tables, persist_all, persist_euiccs, load_row, Database}
use euicc_simulator.Database.Saved.{saved, load_row-persist_euiccs}

module _ (t : Tables) where
  -- The manager's keys being distinct, `persist_euiccs` ends in one of two ways, for each instance.
  -- Either the commit raises, and the database is as it was. Or the commit succeeds, and the database
  -- then holds a row for the instance that is loaded as its state, but for the notifications, the
  -- session, the volatile memory and the capabilities, which have their defaults.
  pub persist_euiccs_lem :
      (eid : Text) (m : Instances) (i : EuiccInstance) (d : Database t)
      → DistinctKeys m
      → get_euicc eid m ≡ some i
      → ((t.commit (persist_all t m d) ≡ none) × (persist_euiccs t m (some d) ≡ some d))
        ⊎ ((d' : Database t) × (t.commit (persist_all t m d) ≡ some d')
            × (persist_euiccs t m (some d) ≡ some d')
            × (r : DbEuicc) × (t.first eid d'.0 ≡ some r)
            × (load_row t r d' ≡ some (saved eid i.euicc)))
  unfolding persist_euiccs
  persist_euiccs_lem eid m i d distinct here = elim (Option-cases (t.commit (persist_all t m d))) [
    | inl fails ↦ inl (fails, rw fails refl)
    | inr (d', ok) ↦
        let (kept, r, first, loads) = load_row-persist_euiccs t eid m i d d' distinct here ok in
        inr (d', ok, kept, r, first, loads)
  ]
