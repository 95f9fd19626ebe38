-- ===== src/Seeder/Kept.antt =====
-- What a seeding of app/services/laravel_seeder.py leaves as it is.
use euicc_simulator.Prelude.{
  ℕ, ◌≡◌, inl, inr, refl, subst, ◌∙◌, false, Option, none, some, List, [], ◌∷◌, Text, arith,
  bytes_eq, bytes_eq→eq, default, Bool-cases, Option-cases,
}
use euicc_simulator.Prelude.Outcome.{Outcome, returned, raised}
use euicc_simulator.Euicc.{upper}
use euicc_simulator.Es10b.Engine.{Engine}
use euicc_simulator.Manager.{EuiccInstance, Instances, get_euicc, create_euicc}
use euicc_simulator.Manager.Entries.{get_euicc-put_instance_other}
use euicc_simulator.Manager.Instances.{Added, create_euicc_adds}
use euicc_simulator.Seeder.{
  SeedAssociation, Device, merged, is_invalid, after_create, seed_one, seed_all,
  reseed_from_laravel,
}

merged_other :
    (key other : Text) (eims : List SeedAssociation) (o : Option EuiccInstance) (m : Instances)
    → bytes_eq key other ≡ false
    → get_euicc other (merged key eims o m).1 ≡ get_euicc other m
merged_other key other eims none m differ = refl
merged_other key other eims (some i) m differ = get_euicc-put_instance_other key other _ m differ

after_create_other :
    (initialize : Text → Option Engine) (key other : Text) (d : Device) (m : Instances)
    (r : Outcome EuiccInstance × Instances)
    → Added key m r
    → bytes_eq key other ≡ false
    → get_euicc other (after_create initialize key d r).1 ≡ get_euicc other m
after_create_other initialize key other d m (raised, m') same differ = rw same refl
after_create_other initialize key other d m (returned i, m') (made, others, deleted) differ =
    merged_other key other d.eim_associations (get_euicc key m') m' differ ∙ others other differ

-- The EIDs of the devices are in capitals.
abbrev pub InCapitals : Option Text → Type 0
InCapitals none = Unit {0}
InCapitals (some eid) = upper eid ≡ eid

abbrev pub AllInCapitals : List Device → Type 0
AllInCapitals [] = Unit {0}
AllInCapitals (d ∷ ds) = InCapitals d.eid × AllInCapitals ds

module _ (initialize : Text → Option Engine) where
  distinct_key :
      (eid other : Text) (m : Instances) (i : EuiccInstance)
      → get_euicc eid m ≡ none
      → get_euicc other m ≡ some i
      → bytes_eq eid other ≡ false
  distinct_key eid other m i absent present = elim (Bool-cases (bytes_eq eid other)) [
    | inr apart ↦ apart
    | inl same ↦
        let found = subst (λ k. get_euicc k m ≡ none) (bytes_eq→eq eid other same) absent in
        absurd (ground (arith, found, present))
  ]

  seed_one_keeps :
      (o : Option Text) (d : Device) (m : Instances) (other : Text) (i : EuiccInstance)
      → InCapitals o
      → get_euicc other m ≡ some i
      → get_euicc other (seed_one initialize o d m).1 ≡ some i
  seed_one_keeps none d m other i caps h = h
  seed_one_keeps (some eid) d m other i caps h = elim (Bool-cases (is_invalid eid)) [
    | inl bad ↦ rw bad h
    | inr good ↦ elim (Option-cases (get_euicc eid m)) [
      | inr (j, present) ↦ rw (good, present) h
      | inl absent ↦
          let differ = distinct_key eid other m i absent h in
          rw (good, absent, caps)
            (after_create_other initialize eid other d m
                (create_euicc initialize eid (default d.default_smdp_address []) none none
                  d.preloaded_profiles m)
                (create_euicc_adds initialize eid (default d.default_smdp_address []) none none
                  d.preloaded_profiles m)
                differ
              ∙ h)
    ]
  ]

  seed_all_keeps :
      (ds : List Device) (loaded : ℕ) (m : Instances) (other : Text) (i : EuiccInstance)
      → AllInCapitals ds
      → get_euicc other m ≡ some i
      → get_euicc other (seed_all initialize ds loaded m).1 ≡ some i
  unfolding seed_all
  seed_all_keeps [] loaded m other i caps h = h
  seed_all_keeps (d ∷ ds) loaded m other i (cap, caps) h =
      seed_all_keeps ds _ (seed_one initialize d.eid d m).1 other i caps
        (seed_one_keeps d.eid d m other i cap h)

  -- A seeding whose EIDs are in capitals leaves every instance that exists as it is.
  pub reseed_from_laravel_keeps :
      (answer : Option (List Device)) (m : Instances) (other : Text) (i : EuiccInstance)
      → AllInCapitals (default answer [])
      → get_euicc other m ≡ some i
      → get_euicc other (reseed_from_laravel initialize answer m).1 ≡ some i
  unfolding reseed_from_laravel
  reseed_from_laravel_keeps none m other i caps h = h
  reseed_from_laravel_keeps (some ds) m other i caps h = seed_all_keeps ds 0 m other i caps h
