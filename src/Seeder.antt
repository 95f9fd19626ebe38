-- ===== src/Seeder.antt =====
-- app/services/laravel_seeder.py, from the answer of the seed server on. What `int` makes of a value is
-- an option, `none` being its exception.
pub mod Kept
use euicc_simulator.Prelude.{
  is_in, ◌>>=◌, ℕ, ◌+◌, Bool, true, false, not, ◌||◌, Option, none, some, List, [], ◌∷◌, ◌++◌, Text,
  truthy, default, ◌==◌, if◌then◌else◌, length,
}
use euicc_simulator.Prelude.Int.{ℤ, pos, negsuc}
use euicc_simulator.Prelude.Outcome.{Outcome, returned, raised}
use euicc_simulator.Euicc.{EimAssociation, EuiccState, upper}
use euicc_simulator.Es10b.Engine.{Engine}
use euicc_simulator.Manager.{
  EuiccInstance, Instances, Preload, get_euicc, put_instance, is_some, create_euicc,
}

pub record SeedAssociation : Type 0 where
  pub eim_id : Option Text
  pub eim_fqdn : Option Text
  pub counter_value : Option ℤ
  pub supported_protocol : Option ℕ

pub record Device : Type 0 where
  pub eid : Option Text
  pub default_smdp_address : Option Text
  pub preloaded_profiles : List Preload
  pub eim_associations : List SeedAssociation

abbrev pub seeded : SeedAssociation → Option EimAssociation
seeded a = do
  counter_value ← a.counter_value
  supported_protocol ← a.supported_protocol
  some record {
    eim_id = default a.eim_id [];
    eim_fqdn = default a.eim_fqdn [];
    counter_value = counter_value;
    association_token = 0;
    supported_protocol = supported_protocol;
  }

-- The loop over the associations: whether it ends without an exception, and the associations.
unfoldable pub merge : List SeedAssociation → List EimAssociation → Bool × List EimAssociation
merge [] eims = (true, eims)
merge (a ∷ rest) eims = elim (seeded a) [
  | none ↦ (false, eims)
  | some e ↦ merge rest (eims ++ e ∷ [])
]

-- `not eid or len(eid) != 32`.
abbrev pub is_invalid : Text → Bool
is_invalid eid = not (truthy eid) || not (length eid == 32)

-- The associations go to the instance under the EID in capitals; `none` is the AttributeError of one
-- that is not there.
abbrev pub merged :
    Text → List SeedAssociation → Option EuiccInstance → Instances → Bool × Instances
merged key eims none instances = (false, instances)
merged key eims (some i) instances =
    let (ok, all) = merge eims i.euicc.eim_associations in
    (
      ok,
      put_instance key (record i { euicc = record i.euicc { eim_associations = all } }) instances,
    )

module _ (initialize : Text → Option Engine) where
  abbrev pub after_create : Text → Device → Outcome EuiccInstance × Instances → Bool × Instances
  after_create key d (raised, instances) = (false, instances)
  after_create key d (returned i, instances) =
      merged key d.eim_associations (get_euicc key instances) instances

  -- A round of the loop: whether the device is loaded. An exception is caught.
  abbrev pub seed_one : Option Text → Device → Instances → Bool × Instances
  seed_one none d instances = (false, instances)
  seed_one (some eid) d instances =
      if is_invalid eid
      then (false, instances)
      else if is_some (get_euicc eid instances)
      then (false, instances)
      else after_create (upper eid) d (
          create_euicc initialize (upper eid) (default d.default_smdp_address []) none none
            d.preloaded_profiles instances)

  unfoldable pub seed_all : List Device → ℕ → Instances → ℕ × Instances
  seed_all [] loaded instances = (loaded, instances)
  seed_all (d ∷ ds) loaded instances =
      let (ok, next) = seed_one d.eid d instances in
      seed_all ds (if ok then loaded + 1 else loaded) next

  -- `none` is a fetch that is skipped or fails.
  unfoldable pub reseed_from_laravel : Option (List Device) → Instances → ℤ × Instances
  unfolding seed_all
  reseed_from_laravel none instances = (negsuc 0, instances)
  reseed_from_laravel (some devices) instances =
      let (loaded, next) = seed_all devices 0 instances in (pos loaded, next)
