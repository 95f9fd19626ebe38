-- ===== src/App/Restart.antt =====
-- What a start of app/main.py finds of an earlier run in the database.
use euicc_simulator.Prelude.{ℕ, ◌≡◌, Bool, Option, none, some, List, [], ◌∷◌, Text}
use euicc_simulator.Prelude.Outcome.{Outcome, returned, raised}
use euicc_simulator.Euicc.{EuiccState}
use euicc_simulator.Es10b.Engine.{Engine}
use euicc_simulator.Manager.{EuiccInstance, Instances, get_euicc}
use euicc_simulator.Manager.Instances.{create_euicc_from_state_keeps}
use euicc_simulator.Database.{
  Tables, DbEuicc, Database, load_row, load_one, load_rows, load_persisted_euiccs,
}
use euicc_simulator.App.{Application, setup_euiccs, after_setup, startup}

module _ (initialize : Text → Option Engine) (t : Tables) where
  -- Whether an instance is still what it was.
  abbrev Keeps : Text → EuiccInstance → Instances → Type 0
  Keeps eid i m = get_euicc eid m ≡ some i

  load_one-Keeps :
      (eid : Text) (i : EuiccInstance) (s : Option EuiccState) (m : Instances)
      → Keeps eid i m
      → Keeps eid i (load_one t initialize s m).1
  load_one-Keeps eid i none m h = h
  load_one-Keeps eid i (some s) m h = create_euicc_from_state_keeps initialize s eid m i h

  branch-Keeps :
      (eid : Text) (i : EuiccInstance) (o : Outcome EuiccInstance) (m : Instances)
      (rest : Outcome Bool × Instances)
      → Keeps eid i m
      → Keeps eid i rest.1
      → Keeps eid i
          (elim o as (λ _. Outcome Bool × Instances) [ raised ↦ (raised, m) | returned j ↦ rest ]).1
  branch-Keeps eid i (returned j) m rest h k = k
  branch-Keeps eid i raised m rest h k = h

  load_rows-Keeps :
      (eid : Text) (i : EuiccInstance) (rs : List DbEuicc) (d : Database t) (m : Instances)
      → Keeps eid i m
      → Keeps eid i (load_rows t initialize rs d m).1
  load_rows-Keeps eid i [] d m h = h
  load_rows-Keeps eid i (r ∷ rs) d m h =
      let step = load_one t initialize (load_row t r d) m in
      let next : Keeps eid i step.1 = load_one-Keeps eid i (load_row t r d) m h in
      branch-Keeps eid i step.0 step.1 (load_rows t initialize rs d step.1) next
        (load_rows-Keeps eid i rs d step.1 next)

  load_persisted_euiccs-Keeps :
      (eid : Text) (i : EuiccInstance) (d : Option (Database t)) (m : Instances)
      → Keeps eid i m
      → Keeps eid i (load_persisted_euiccs t initialize d m).1
  unfolding load_persisted_euiccs
  load_persisted_euiccs-Keeps eid i none m h = h
  load_persisted_euiccs-Keeps eid i (some d) m h = load_rows-Keeps eid i (t.euiccs d.0) d m h

  after_setup-Keeps :
      (port : ℕ) (eid : Text) (i : EuiccInstance) (d : Option (Database t)) (o : Outcome Bool)
      (app : Application)
      → Keeps eid i app.instances
      → Keeps eid i (after_setup initialize t port d (o, app)).1.instances
  after_setup-Keeps port eid i d raised app h = h
  after_setup-Keeps port eid i d (returned ok) app h =
      load_persisted_euiccs-Keeps eid i d app.instances h

  -- Whatever the database holds, a start leaves each test eUICC in the state in which it has just been
  -- created: what an earlier run saved of it is not restored.
  pub startup_ignores_saved :
      (port : ℕ) (d : Option (Database t)) (eid : Text) (i : EuiccInstance)
      → get_euicc eid (setup_euiccs initialize).1.instances ≡ some i
      → get_euicc eid (startup initialize t port d).1.instances ≡ some i
  unfolding startup
  startup_ignores_saved port d eid i h =
      after_setup-Keeps port eid i d (setup_euiccs initialize).0 (setup_euiccs initialize).1 h
