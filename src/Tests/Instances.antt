-- ===== src/Tests/Instances.antt =====
-- app/services/euicc_manager.py, app/models/database.py and app/main.py at concrete inputs: a PKI for
-- every EID, and tables that are lists.
use euicc_simulator.Prelude.{
  ◌⊎◌, none, ◌≡◌, refl, Option, some, [], ◌∷◌, Bytes, Text, codes, arith, length, bytes_eq,
  bytes_eq_refl, fromhex, hex_value,
}
use euicc_simulator.Euicc.{
  EuiccState, ProfileSlot, new_euicc, disabled, operational, iccid_string, allocate_isdp_aid,
}
use euicc_simulator.Es10b.Engine.{Engine}
use euicc_simulator.Manager.{
  EuiccInstance, Instances, get_euicc, new_instance, preloaded_slot, preload, bcd_pairs,
  string_to_bcd_iccid, create_euicc, create_test_euiccs,
}
use euicc_simulator.Manager.Iccid.{iccid_string-string_to_bcd_iccid}
use euicc_simulator.Database.{DbEuicc, Database, persist_all, persist_euiccs, load_row}
use euicc_simulator.Database.Saved.{saved}
use euicc_simulator.Database.Commits.{persist_euiccs_lem}
use euicc_simulator.App.{setup_euiccs, startup}
use euicc_simulator.App.Restart.{startup_ignores_saved}
use euicc_simulator.Prelude.Int.{pos}
use euicc_simulator.Euicc.{upper}
use euicc_simulator.Seeder.{Device, reseed_from_laravel}
use euicc_simulator.Seeder.Kept.{reseed_from_laravel_keeps}
use euicc_simulator.Tests.Tables.{tables}
use euicc_simulator.Tests.Download.{engine}

abbrev blank : ProfileSlot
blank = record {
  iccid = [];
  isdp_aid = [];
  state = disabled;
  profile_name = [];
  service_provider_name = [];
  profile_nickname = [];
  profile_class = operational;
  notification_address = [];
  policy_rules = [];
  profile_data = [];
}

iccid_string-string_to_bcd_iccid_example :
    (b : Bytes) × (string_to_bcd_iccid (codes "8901234567890123456") ≡ some b)
    × (length b ≡ 10)
    × (iccid_string (record blank { iccid = b }) ≡ codes "8901234567890123456")
iccid_string-string_to_bcd_iccid_example =
    iccid_string-string_to_bcd_iccid (codes "8901234567890123456") blank (omega arith) (omega arith)

abbrev with_engine : Text → Option Engine
with_engine eid = some engine

abbrev eid : Text
eid = codes "89"

-- The state that is saved has a firmware version of two digits and an eIM.
abbrev changed : EuiccState
changed = record (new_euicc eid) {
  firmware_version = (12, 0, 105);
  eim_associations =
      record {
        eim_id = codes "eim";
        eim_fqdn = [];
        counter_value = pos 3;
        association_token = 0;
        supported_protocol = 0;
      }
      ∷ [];
}

abbrev instances : Instances
instances = (eid, new_instance changed engine) ∷ []

abbrev no_rows : Database tables
no_rows = ([], [], [])

persist_euiccs_lem_example :
    ((tables.commit (persist_all tables instances no_rows) ≡ none)
      × (persist_euiccs tables instances (some no_rows) ≡ some no_rows))
    ⊎ ((d' : Database tables) × (tables.commit (persist_all tables instances no_rows) ≡ some d')
        × (persist_euiccs tables instances (some no_rows) ≡ some d')
        × (r : DbEuicc) × (tables.first eid d'.0 ≡ some r)
        × (load_row tables r d' ≡ some (saved eid changed)))
unfolding get_euicc
persist_euiccs_lem_example =
    persist_euiccs_lem tables eid instances (new_instance changed engine) no_rows (refl, tt)
      (rw (bytes_eq_refl eid) refl)

-- The third test eUICC as it is created, and a database in which an earlier run saved it changed.
abbrev third_eid : Text
third_eid = codes "89049032123451234512345678901237"

abbrev third : EuiccInstance
third =
    new_instance
      (record (new_euicc third_eid) { default_smdp_address = codes "smdpplus.connectxiot.com" })
      engine

abbrev earlier : Database tables
earlier =
    persist_all tables ((third_eid, new_instance (record changed { eid = third_eid }) engine) ∷ [])
      no_rows

startup_ignores_saved_example :
    get_euicc third_eid (startup with_engine tables 9000 (some earlier)).1.instances ≡ some third
unfolding setup_euiccs create_test_euiccs create_euicc get_euicc preload preloaded_slot
    string_to_bcd_iccid bcd_pairs allocate_isdp_aid hex_value bytes_eq new_euicc fromhex
startup_ignores_saved_example =
    startup_ignores_saved with_engine tables 9000 (some earlier) third_eid third refl

abbrev device : Device
device = record {
  eid = some third_eid;
  default_smdp_address = some (codes "other.example");
  preloaded_profiles = [];
  eim_associations = [];
}

reseed_from_laravel_keeps_example :
    get_euicc eid (reseed_from_laravel with_engine (some (device ∷ [])) instances).1
    ≡ some (new_instance changed engine)
unfolding get_euicc upper
reseed_from_laravel_keeps_example =
    reseed_from_laravel_keeps with_engine (some (device ∷ [])) instances eid
      (new_instance changed engine) (refl, tt) (rw (bytes_eq_refl eid) refl)
