-- ===== src/Manager/Created.antt =====
-- The test eUICCs of app/services/euicc_manager.py are well-formed when they are made, and so is what is
-- stored of them.
use euicc_simulator.Prelude.{
  ◌>>=◌, ◌≡◌, inl, inr, refl, sym, subst, Bool, true, Option, none, some, List, [], ◌∷◌, ◌++◌, Text,
  arith, codes, truthy, bytes_eq, Bool-cases, Option-cases,
}
use euicc_simulator.Prelude.Outcome.{Outcome, returned, raised}
use euicc_simulator.Euicc.{EuiccState, new_euicc, allocate_isdp_aid}
use euicc_simulator.Euicc.Valid.{IsValid, DistinctEims}
use euicc_simulator.Es10b.Engine.{Engine}
use euicc_simulator.Es10b.Sessions.{Vouched, SessionIsValid}
use euicc_simulator.Manager.{
  EuiccInstance, Instances, Preload, get_euicc, new_instance, initial_eims, created_state, preload,
  preloaded_slot, string_to_bcd_iccid, stored, create_euicc, bcd_pairs, create_euicc_from_state,
  and_then, sample_profile, create_test_euiccs,
}
use euicc_simulator.Manager.Entries.{Every, Every-append, DistinctKeys-append, DistinctKeys}

-- The state is well-formed, and its session is authenticated only with a key vouched for.
abbrev pub StateIsValid : Engine → EuiccState → Type 0
StateIsValid e s = IsValid s × SessionIsValid (Vouched e) s.active_session

abbrev pub InstanceIsValid : EuiccInstance → Type 0
InstanceIsValid i = StateIsValid i.pki i.euicc

-- All instances are valid, and no EID has two.
abbrev pub InstancesAreValid : Instances → Type 0
InstancesAreValid m = Every InstanceIsValid m × DistinctKeys m

-- A state that is made or loaded, if one is, is well-formed; it has no session.
abbrev pub MadeValid : Option EuiccState → Type 0
MadeValid none = Unit {0}
MadeValid (some s) = IsValid s

abbrev pub Sessionless : Option EuiccState → Type 0
Sessionless none = Unit {0}
Sessionless (some s) = s.active_session ≡ none

stored-InstancesAreValid :
    (eid : Text) (o : Option EuiccState) (e : Option Engine) (m : Instances)
    → get_euicc eid m ≡ none
    → MadeValid o
    → Sessionless o
    → InstancesAreValid m
    → InstancesAreValid (stored eid o e m).1
stored-InstancesAreValid eid none e m new v f h = h
stored-InstancesAreValid eid (some s) none m new v f h = h
stored-InstancesAreValid eid (some s) (some e) m new v f (h, d) =
    let session : SessionIsValid (Vouched e) s.active_session =
      subst (SessionIsValid (Vouched e)) (sym f) tt in
    (
      Every-append InstanceIsValid m eid (new_instance s e) (v, session) h,
      DistinctKeys-append m eid (new_instance s e) new d,
    )

-- The bind of an Option.
pub bind-Sessionless {ℓ} :
    {A : Type ℓ} (o : Option A) (f : A → Option EuiccState)
    → ((a : A) → Sessionless (f a))
    → Sessionless (o >>= f)
bind-Sessionless none f h = tt
bind-Sessionless (some a) f h = h a

preload-Sessionless :
    (address : Text) (ps : List Preload) (s : EuiccState)
    → s.active_session ≡ none
    → Sessionless (preload address ps s)
unfolding preload
preload-Sessionless address [] s h = h
preload-Sessionless address (p ∷ ps) s h =
    bind-Sessionless (preloaded_slot address p s) _
      (λ slot. preload-Sessionless address ps (record s { profiles = s.profiles ++ slot ∷ [] }) h)

initial_eims-DistinctEims : (id fqdn : Option Text) → DistinctEims (initial_eims id fqdn)
initial_eims-DistinctEims none fqdn = tt
initial_eims-DistinctEims (some id) fqdn = elim (Bool-cases (truthy id)) [
  | inl given ↦ rw given (refl, tt)
  | inr empty ↦ rw empty tt
]

module _ (initialize : Text → Option Engine) where
  -- The two profiles of the first test eUICC, one enabled.
  abbrev sample_profiles : List Preload
  sample_profiles =
      sample_profile initialize (codes "8901234567890123456F") (codes "ConnectX IoT Profile 1")
        (codes "enabled")
      ∷ sample_profile initialize (codes "8901234567890123457F") (codes "ConnectX IoT Profile 2")
          (codes "disabled")
      ∷ []

  samples-MadeValid :
      (eid address : Text) (eim_id fqdn : Option Text)
      → MadeValid (preload address sample_profiles (created_state eid address eim_id fqdn))
  unfolding preload preloaded_slot string_to_bcd_iccid bcd_pairs allocate_isdp_aid new_euicc
      bytes_eq
  samples-MadeValid eid address eim_id fqdn = record {
    one_enabled = omega arith;
    numbered = omega arith;
    distinct = initial_eims-DistinctEims eim_id fqdn;
    room = omega arith;
  }

  created-MadeValid :
      (eid address : Text) (eim_id fqdn : Option Text)
      → MadeValid (preload address [] (created_state eid address eim_id fqdn))
  unfolding preload new_euicc
  created-MadeValid eid address eim_id fqdn = record {
    one_enabled = omega arith;
    numbered = omega arith;
    distinct = initial_eims-DistinctEims eim_id fqdn;
    room = omega arith;
  }

  create_euicc-InstancesAreValid :
      (eid address : Text) (eim_id fqdn : Option Text) (ps : List Preload) (m : Instances)
      → MadeValid (preload address ps (created_state eid address eim_id fqdn))
      → InstancesAreValid m
      → InstancesAreValid (create_euicc initialize eid address eim_id fqdn ps m).1
  unfolding create_euicc new_euicc
  create_euicc-InstancesAreValid eid address eim_id fqdn ps m made v =
      elim (Option-cases (get_euicc eid m)) [
        | inr (i, present) ↦ rw (create_euicc, present) v
        | inl absent ↦
            rw (create_euicc, absent)
              (stored-InstancesAreValid eid _ (initialize eid) m absent made
                (preload-Sessionless address ps (created_state eid address eim_id fqdn) refl) v)
      ]

  pub create_euicc_from_state-InstancesAreValid :
      (s : EuiccState) (m : Instances)
      → IsValid s
      → s.active_session ≡ none
      → InstancesAreValid m
      → InstancesAreValid (create_euicc_from_state initialize s m).1
  unfolding create_euicc_from_state
  create_euicc_from_state-InstancesAreValid s m made fresh v =
      elim (Option-cases (get_euicc s.eid m)) [
        | inr (i, present) ↦ rw (create_euicc_from_state, present) v
        | inl absent ↦
            rw (create_euicc_from_state, absent)
              (stored-InstancesAreValid s.eid (some s) (initialize s.eid) m absent made fresh v)
      ]

  and_then-keeps :
      (P : Instances → Type 0) (r : Outcome EuiccInstance × Instances)
      (next : Instances → Outcome Bool × Instances)
      → ((m : Instances) → P m → P (next m).1)
      → P r.1
      → P (and_then initialize r next).1
  and_then-keeps P (raised, m) next keep p = p
  and_then-keeps P (returned i, m) next keep p = keep m p

  -- The creation of the second and third test eUICC, and of the third.
  abbrev make_third : Text → Instances → Outcome EuiccInstance × Instances
  make_third address m =
      create_euicc initialize (codes "89049032123451234512345678901237") address none none [] m

  abbrev make_second : Text → Text → Instances → Outcome EuiccInstance × Instances
  make_second address fqdn m =
      create_euicc initialize (codes "89049032123451234512345678901236") address
        (some (codes "EIM-89049032123451234512345678901236")) (some fqdn) [] m

  abbrev make_first : Text → Text → Instances → Outcome EuiccInstance × Instances
  make_first address fqdn m =
      create_euicc initialize (codes "89049032123451234512345678901235") address
        (some (codes "EIM-89049032123451234512345678901235")) (some fqdn) sample_profiles m

  abbrev from_third : Text → Instances → Outcome Bool × Instances
  from_third address m = and_then initialize (make_third address m) (λ done. (returned true, done))

  abbrev from_second : Text → Text → Instances → Outcome Bool × Instances
  from_second address fqdn m = and_then initialize (make_second address fqdn m) (from_third address)

  from_third-InstancesAreValid :
      (address : Text) (m : Instances)
      → InstancesAreValid m
      → InstancesAreValid (from_third address m).1
  from_third-InstancesAreValid address m v =
      and_then-keeps InstancesAreValid (make_third address m) (λ done. (returned true, done))
        (λ m' v'. v')
        (create_euicc-InstancesAreValid (codes "89049032123451234512345678901237") address none none
          [] m (created-MadeValid (codes "89049032123451234512345678901237") address none none) v)

  from_second-InstancesAreValid :
      (address fqdn : Text) (m : Instances)
      → InstancesAreValid m
      → InstancesAreValid (from_second address fqdn m).1
  from_second-InstancesAreValid address fqdn m v =
      and_then-keeps InstancesAreValid (make_second address fqdn m) (from_third address)
        (from_third-InstancesAreValid address)
        (create_euicc-InstancesAreValid (codes "89049032123451234512345678901236") address
          (some (codes "EIM-89049032123451234512345678901236")) (some fqdn) [] m
          (created-MadeValid (codes "89049032123451234512345678901236") address
            (some (codes "EIM-89049032123451234512345678901236")) (some fqdn))
          v)

  -- Whatever fails in between.
  pub create_test_euiccs-InstancesAreValid :
      (address fqdn : Text) (m : Instances)
      → InstancesAreValid m
      → InstancesAreValid (create_test_euiccs initialize address fqdn m).1
  unfolding create_test_euiccs
  create_test_euiccs-InstancesAreValid address fqdn m v =
      and_then-keeps InstancesAreValid (make_first address fqdn m) (from_second address fqdn)
        (from_second-InstancesAreValid address fqdn)
        (create_euicc-InstancesAreValid (codes "89049032123451234512345678901235") address
          (some (codes "EIM-89049032123451234512345678901235")) (some fqdn) sample_profiles m
          (samples-MadeValid (codes "89049032123451234512345678901235") address
            (some (codes "EIM-89049032123451234512345678901235")) (some fqdn))
          v)
