-- ===== src/App/Ports.antt =====
-- The ports of app/transport/tcp_server.py as app/main.py assigns them: which eUICC answers at which
-- port once the application is started.
use euicc_simulator.Prelude.{
  ℕ, suc, ◌+◌, ◌≡◌, refl, sym, subst, Option, some, List, [], ◌∷◌, ◌++◌, Text, Bool, true, false,
  arith, length, inl, inr, Bool-cases, ◌==◌, if◌then◌else◌,
}
use euicc_simulator.Prelude.Outcome.{Outcome, returned, raised}
use euicc_simulator.Manager.{EuiccInstance, Instances}
use euicc_simulator.Es10b.Engine.{Engine}
use euicc_simulator.Database.{Tables, Database}
use euicc_simulator.Transport.TcpServer.{new_handler}
use euicc_simulator.App.{Application, port_map_from, after_setup, startup, setup_euiccs, member}
use euicc_simulator.App.Server.{ApduTcpServer, start, listen_all, eid_at, has_port, handle_client}
use euicc_simulator.App.Lifecycle.{lifespan, serving}

-- Each eUICC has a port, in their order.
abbrev pub HasPorts : ℕ → Application → Type 0
HasPorts port app = app.port_map ≡ port_map_from port 0 app.instances

module _ (initialize : Text → Option Engine) (t : Tables) where
  after_setup-HasPorts :
      (port : ℕ) (d : Option (Database t)) (o : Outcome Bool) (app : Application) (ok : Bool)
      → (after_setup initialize t port d (o, app)).0 ≡ returned ok
      → HasPorts port (after_setup initialize t port d (o, app)).1
  after_setup-HasPorts port d raised app ok started = ground (arith, started)
  after_setup-HasPorts port d (returned b) app ok started = refl

  serving-HasPorts :
      (port : ℕ) (can_listen : ℕ → Bool) (o : Outcome Bool) (app : Application) (ok : Bool)
      → ((b : Bool) → o ≡ returned b → HasPorts port app)
      → (serving t initialize can_listen (o, app)).0 ≡ returned ok
      → HasPorts port (serving t initialize can_listen (o, app)).1.app
  unfolding start
  serving-HasPorts port can_listen raised app ok ports started = ground (arith, started)
  serving-HasPorts port can_listen (returned b) app ok ports started = ports b refl

  startup-HasPorts :
      (port : ℕ) (d : Option (Database t)) (ok : Bool)
      → (startup initialize t port d).0 ≡ returned ok
      → HasPorts port (startup initialize t port d).1
  unfolding startup setup_euiccs
  startup-HasPorts port d ok started =
      after_setup-HasPorts port d _ (setup_euiccs initialize).1 ok started

  pub lifespan-HasPorts :
      (port : ℕ) (d : Option (Database t)) (can_listen : ℕ → Bool) (ok : Bool)
      → (lifespan t initialize port d can_listen).0 ≡ returned ok
      → HasPorts port (lifespan t initialize port d can_listen).1.app
  unfolding lifespan
  lifespan-HasPorts port d can_listen ok started =
      serving-HasPorts port can_listen _ (startup initialize t port d).1 ok
        (λ b. startup-HasPorts port d b) started

eid_at-port_map_from :
    (port offset : ℕ) (before : Instances) (key : Text) (i : EuiccInstance) (after : Instances)
    → eid_at
        (port + (offset + length before))
        (port_map_from port offset (before ++ (key, i) ∷ after))
      ≡ some i.euicc.eid
eid_at-port_map_from port offset [] key i after = ground arith
eid_at-port_map_from port offset ((k, j) ∷ before) key i after =
    let there = eid_at-port_map_from port (offset + 1) before key i after in
    let later : port + (offset + 1 + length before) ≡ port + (offset + suc (length before)) =
      omega arith in
    let differ : ((port + offset) == (port + (offset + suc (length before)))) ≡ false =
      ground arith in
    rw differ (
      subst
        (λ p.
          eid_at p (port_map_from port (offset + 1) (before ++ (key, i) ∷ after))
          ≡ some i.euicc.eid)
        later there)

first_eid_at :
    (port : ℕ) (before : Instances) (key : Text) (i : EuiccInstance) (after : Instances)
    → eid_at (port + length before) (port_map_from port 0 (before ++ (key, i) ∷ after))
      ≡ some i.euicc.eid
first_eid_at port before key i after =
    let counted : 0 + length before ≡ length before = omega arith in
    subst
      (λ n.
        eid_at (port + n) (port_map_from port 0 (before ++ (key, i) ∷ after)) ≡ some i.euicc.eid)
      counted (eid_at-port_map_from port 0 before key i after)

has_port-append : (port : ℕ) (ports : List ℕ) → has_port port (ports ++ port ∷ []) ≡ true
has_port-append port [] = ground arith
has_port-append port (p ∷ ports) = ground (arith, has_port-append port ports)

has_port-append_other :
    (port other : ℕ) (ports : List ℕ)
    → has_port port ports ≡ true
    → has_port port (ports ++ other ∷ []) ≡ true
has_port-append_other port other [] h = ground (arith, h)
has_port-append_other port other (p ∷ ports) h =
    ground (arith, h, has_port-append_other port other ports)

-- A first port that was listened on, and the others.
listened :
    (free : Bool) (more : Outcome Bool × List ℕ) (servers : List ℕ) (ok : Bool)
    → (if free then more else (raised, servers)).0 ≡ returned ok
    → (free ≡ true) × (more.0 ≡ returned ok)
listened true more servers ok listens = (refl, listens)
listened false more servers ok listens = ground (arith, listens)

at_rest :
    (here : Text) {rest : Option Text} {eid : Text} (first : Bool)
    → first ≡ false
    → (if first then some here else rest) ≡ some eid
    → rest ≡ some eid
at_rest here true other found = ground (arith, other)
at_rest here false other found = found

module _ (can_listen : ℕ → Bool) where
  listen_all_keeps :
      (port : ℕ) (port_map : List (ℕ × Text)) (servers : List ℕ)
      → has_port port servers ≡ true
      → has_port port (listen_all can_listen port_map servers).1 ≡ true
  listen_all_keeps port [] servers h = h
  listen_all_keeps port ((p, eid) ∷ rest) servers h = elim (Bool-cases (can_listen p)) [
    | inl free ↦
        rw free
          (listen_all_keeps port rest (servers ++ p ∷ []) (has_port-append_other port p servers h))
    | inr taken ↦ rw taken h
  ]

  -- Where every port could be listened on, every port of the map has a server.
  listen_all-has_port :
      (port : ℕ) (eid : Text) (port_map : List (ℕ × Text)) (servers : List ℕ) (ok : Bool)
      → eid_at port port_map ≡ some eid
      → (listen_all can_listen port_map servers).0 ≡ returned ok
      → has_port port (listen_all can_listen port_map servers).1 ≡ true
  listen_all-has_port port eid [] servers ok here listens = ground (arith, here)
  listen_all-has_port port eid ((p, e) ∷ rest) servers ok here listens =
      let more = listen_all can_listen rest (servers ++ p ∷ []) in
      let (free, listens_on) = listened (can_listen p) more servers ok listens in
      rw free (elim (Bool-cases (p == port)) [
        | inl same ↦
            let here_now : p ≡ port = grind arith in
            listen_all_keeps port rest (servers ++ p ∷ []) (
              subst (λ q. has_port port (servers ++ q ∷ []) ≡ true) (sym here_now)
                (has_port-append port servers))
        | inr other ↦
            listen_all-has_port port eid rest (servers ++ p ∷ []) ok
              (at_rest e (p == port) other here) listens_on
      ])

-- A server that has started listens at every port of its map.
serving-servers :
    (initialize : Text → Option Engine) (t : Tables) (can_listen : ℕ → Bool) (o : Outcome Bool)
    (app : Application) (ok : Bool) (port : ℕ) (eid : Text)
    → eid_at port (serving t initialize can_listen (o, app)).1.app.port_map ≡ some eid
    → (serving t initialize can_listen (o, app)).0 ≡ returned ok
    → let s = (serving t initialize can_listen (o, app)).1 in
      (has_port port s.servers ≡ true) × (s.running ≡ true) × (s.clients ≡ [])
unfolding start
serving-servers initialize t can_listen raised app ok port eid here started =
    ground (arith, started)
serving-servers initialize t can_listen (returned b) app ok port eid here started =
    (listen_all-has_port can_listen port eid app.port_map [] ok here started, refl, refl)

handle_client_opens :
    (id port : ℕ) (eid : Text) (s : ApduTcpServer)
    → has_port port s.servers ≡ true
    → eid_at port s.app.port_map ≡ some eid
    → s.running ≡ true
    → s.clients ≡ []
    → (handle_client id port s).clients
      ≡ (if member eid s.app.dispatchers then (id, new_handler eid) ∷ [] else [])
unfolding handle_client
handle_client_opens id port eid s listening at_port up no_clients =
    elim (Bool-cases (member eid s.app.dispatchers)) [
      | inl dispatched ↦ rw (listening, at_port, dispatched, up, no_clients) refl
      | inr without ↦ rw (listening, at_port, without, no_clients) refl
    ]

module _ (initialize : Text → Option Engine) (t : Tables) where
  -- After a start that ended well, a connection to the first port plus the number of eUICCs that are
  -- listed before a given one is served as the only client, of that eUICC, if the eUICC's EID has a
  -- dispatcher, and is not served otherwise.
  pub connect_reaches :
      (port : ℕ) (d : Option (Database t)) (can_listen : ℕ → Bool) (ok : Bool) (before : Instances)
      (key : Text) (i : EuiccInstance) (after : Instances) (id : ℕ)
      → let (outcome, s) = lifespan t initialize port d can_listen in
        outcome ≡ returned ok
        → s.app.instances ≡ before ++ (key, i) ∷ after
        → (handle_client id (port + length before) s).clients ≡ (
            if member i.euicc.eid s.app.dispatchers then (id, new_handler i.euicc.eid) ∷ [] else [])
  unfolding lifespan
  connect_reaches port d can_listen ok before key i after id started listed =
      let s = (lifespan t initialize port d can_listen).1 in
      let at_port : eid_at (port + length before) s.app.port_map ≡ some i.euicc.eid =
        rw (lifespan-HasPorts initialize t port d can_listen ok started, listed)
          (first_eid_at port before key i after) in
      let (listening, up, no_clients) =
        serving-servers initialize t can_listen _ (startup initialize t port d).1 ok
          (port + length before) i.euicc.eid at_port started in
      handle_client_opens id (port + length before) i.euicc.eid s listening at_port up no_clients
