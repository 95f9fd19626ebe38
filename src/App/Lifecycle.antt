-- ===== src/App/Lifecycle.antt =====
-- The run of app/main.py from its start to its end: the eUICCs that app/services/euicc_manager.py
-- creates and app/models/database.py loads, under the server of app/transport/tcp_server.py, and what
-- is saved of them.
use euicc_simulator.Prelude.{
  ℕ, ◌≡◌, refl, Bool, Option, none, some, List, [], ◌∷◌, Text, arith, codes,
}
use euicc_simulator.Prelude.Outcome.{Outcome, returned, raised}
use euicc_simulator.Euicc.{EuiccState, new_euicc}
use euicc_simulator.Euicc.Valid.{IsValid}
use euicc_simulator.Es10b.Engine.{Engine}
use euicc_simulator.Dispatcher.Codec.{Codec}
use euicc_simulator.Dispatcher.Routes.{Draws}
use euicc_simulator.Manager.{EuiccInstance, Instances, get_euicc}
use euicc_simulator.Manager.Entries.{Every-get}
use euicc_simulator.Manager.Created.{
  InstanceIsValid, MadeValid, Sessionless, bind-Sessionless, InstancesAreValid,
  create_euicc_from_state-InstancesAreValid, create_test_euiccs-InstancesAreValid,
}
use euicc_simulator.Database.{
  Tables, DbEuicc, DbProfile, DbEimAssociation, Database, parse_version, profiles_of, euicc_of,
  load_row, load_one, load_rows, load_persisted_euiccs, persist_all,
}
use euicc_simulator.Database.Saved.{saved, load_row-persist_euiccs}
use euicc_simulator.App.{Application, setup_euiccs, after_setup, startup, shutdown}
use euicc_simulator.App.Server.{ApduTcpServer, Event, new_server, start, run}
use euicc_simulator.App.Server.Validity.{run-InstancesAreValid}

euicc_of-Sessionless :
    (r : DbEuicc) (prs : List DbProfile) (ars : List DbEimAssociation)
    → Sessionless (euicc_of r prs ars)
unfolding euicc_of new_euicc
euicc_of-Sessionless r prs ars = bind-Sessionless (parse_version r.svn) _ (λ svn.
    bind-Sessionless (parse_version r.profile_version) _ (λ pv.
      bind-Sessionless (parse_version r.firmware_version) _ (λ fv.
        bind-Sessionless (parse_version r.iot_version) _
          (λ iv. bind-Sessionless (profiles_of prs) _ (λ ps. refl)))))

saved-IsValid : (eid : Text) (s : EuiccState) → IsValid s → IsValid (saved eid s)
saved-IsValid eid s v = record {
  one_enabled = v.one_enabled;
  numbered = omega arith;
  distinct = v.distinct;
  room = v.room;
}

module _ (t : Tables) where
  load_row-Sessionless : (r : DbEuicc) (d : Database t) → Sessionless (load_row t r d)
  unfolding load_row
  load_row-Sessionless r (d, ps, as') =
      euicc_of-Sessionless r (t.profiles.rows r.eid ps) (t.associations.rows r.eid as')

  -- Every row that loads gives a well-formed state.
  abbrev RowsAreValid : List DbEuicc → Database t → Type 0
  RowsAreValid [] d = Unit {0}
  RowsAreValid (r ∷ rs) d = MadeValid (load_row t r d) × RowsAreValid rs d

  abbrev pub DatabaseIsValid : Option (Database t) → Type 0
  DatabaseIsValid none = Unit {0}
  DatabaseIsValid (some (d, ps, as')) = RowsAreValid (t.euiccs d) (d, ps, as')

  module _ (initialize : Text → Option Engine) where
    load_one-InstancesAreValid :
        (o : Option EuiccState) (m : Instances)
        → MadeValid o
        → Sessionless o
        → InstancesAreValid m
        → InstancesAreValid (load_one t initialize o m).1
    load_one-InstancesAreValid none m made fresh v = v
    load_one-InstancesAreValid (some s) m made fresh v =
        create_euicc_from_state-InstancesAreValid initialize s m made fresh v

    branch-InstancesAreValid :
        (o : Outcome EuiccInstance) (m : Instances) (rest : Outcome Bool × Instances)
        → InstancesAreValid m
        → InstancesAreValid rest.1
        → InstancesAreValid
            (elim o as (λ _. Outcome Bool × Instances) [
              | raised ↦ (raised, m)
              | returned j ↦ rest
            ]).1
    branch-InstancesAreValid (returned j) m rest v w = w
    branch-InstancesAreValid raised m rest v w = v

    load_rows-InstancesAreValid :
        (rs : List DbEuicc) (d : Database t) (m : Instances)
        → RowsAreValid rs d
        → InstancesAreValid m
        → InstancesAreValid (load_rows t initialize rs d m).1
    load_rows-InstancesAreValid [] d m rows v = v
    load_rows-InstancesAreValid (r ∷ rs) d m (row, rows) v =
        let step = load_one t initialize (load_row t r d) m in
        let next = load_one-InstancesAreValid (load_row t r d) m row (load_row-Sessionless r d) v in
        branch-InstancesAreValid step.0 step.1 (load_rows t initialize rs d step.1) next
          (load_rows-InstancesAreValid rs d step.1 rows next)

    load_persisted_euiccs-InstancesAreValid :
        (d : Option (Database t)) (m : Instances)
        → DatabaseIsValid d
        → InstancesAreValid m
        → InstancesAreValid (load_persisted_euiccs t initialize d m).1
    unfolding load_persisted_euiccs
    load_persisted_euiccs-InstancesAreValid none m rows v = v
    load_persisted_euiccs-InstancesAreValid (some d) m rows v =
        load_rows-InstancesAreValid (t.euiccs d.0) d m rows v

    after_setup-InstancesAreValid :
        (port : ℕ) (d : Option (Database t)) (o : Outcome Bool) (app : Application)
        → DatabaseIsValid d
        → InstancesAreValid app.instances
        → InstancesAreValid (after_setup initialize t port d (o, app)).1.instances
    after_setup-InstancesAreValid port d raised app rows v = v
    after_setup-InstancesAreValid port d (returned ok) app rows v =
        load_persisted_euiccs-InstancesAreValid d app.instances rows v

    startup-InstancesAreValid :
        (port : ℕ) (d : Option (Database t))
        → DatabaseIsValid d
        → InstancesAreValid (startup initialize t port d).1.instances
    unfolding startup setup_euiccs
    startup-InstancesAreValid port d rows =
        after_setup-InstancesAreValid port d _ (setup_euiccs initialize).1 rows (
          create_test_euiccs-InstancesAreValid initialize (codes "smdpplus.connectxiot.com")
            (codes "eim.connectxiot.com") [] (tt, tt))

    abbrev pub serving : (ℕ → Bool) → Outcome Bool × Application → Outcome Bool × ApduTcpServer
    serving can_listen (raised, app) = (raised, new_server app)
    serving can_listen (returned ok, app) = start can_listen (new_server app)

    -- `lifespan` before its `yield`; an exception ends it.
    unfoldable pub lifespan : ℕ → Option (Database t) → (ℕ → Bool) → Outcome Bool × ApduTcpServer
    unfolding start startup
    lifespan port d can_listen = serving can_listen (startup initialize t port d)

    serving-InstancesAreValid :
        (can_listen : ℕ → Bool) (o : Outcome Bool) (app : Application)
        → InstancesAreValid app.instances
        → InstancesAreValid (serving can_listen (o, app)).1.app.instances
    unfolding start
    serving-InstancesAreValid can_listen raised app v = v
    serving-InstancesAreValid can_listen (returned ok) app v = v

    module _ (c : Codec) (draws : ℕ → Draws) where
      -- The application from its start through any events.
      abbrev pub run_from_start : ℕ → Option (Database t) → (ℕ → Bool) → List Event → ApduTcpServer
      run_from_start port d can_listen events = run c draws events (lifespan port d can_listen).1

      -- Whatever the clients and the requests do after a start, in any order, every eUICC stays
      -- well-formed, with a session that is authenticated only with a key vouched for, and no EID has
      -- two, if every row of the database that loads gives a well-formed state.
      pub run_from_start-IsValid :
          (port : ℕ) (d : Option (Database t)) (can_listen : ℕ → Bool) (events : List Event)
          → DatabaseIsValid d
          → InstancesAreValid (run_from_start port d can_listen events).app.instances
      unfolding lifespan
      run_from_start-IsValid port d can_listen events rows =
          run-InstancesAreValid c draws events (lifespan port d can_listen).1 (
            serving-InstancesAreValid can_listen (startup initialize t port d).0
              (startup initialize t port d).1 (startup-InstancesAreValid port d rows))

      -- At the end of a run of the application, from a start where every row that loads gives a
      -- well-formed state, if the commit succeeds, the database is the one that `shutdown` leaves, and
      -- holds for each eUICC a row that loads as its state but for what is not saved; what it loads as
      -- is well-formed.
      pub shutdown-IsValid :
          (port : ℕ) (d d' : Database t) (can_listen : ℕ → Bool) (events : List Event) (eid : Text)
          (i : EuiccInstance)
          → DatabaseIsValid (some d)
          → let s = run_from_start port (some d) can_listen events in
            get_euicc eid s.app.instances ≡ some i
            → t.commit (persist_all t s.app.instances d) ≡ some d'
            → (shutdown initialize t s.app (some d) ≡ some d')
              × (r : DbEuicc) × (t.first eid d'.0 ≡ some r)
              × (load_row t r d' ≡ some (saved eid i.euicc))
              × IsValid (saved eid i.euicc)
      unfolding shutdown
      shutdown-IsValid port d d' can_listen events eid i rows here ok =
          let s = run_from_start port (some d) can_listen events in
          let (v, distinct) = run_from_start-IsValid port (some d) can_listen events rows in
          let (kept, r, found, loads) =
            load_row-persist_euiccs t eid s.app.instances i d d' distinct here ok in
          (
            kept,
            r,
            found,
            loads,
            saved-IsValid eid i.euicc (Every-get InstanceIsValid eid s.app.instances i here v).0,
          )
