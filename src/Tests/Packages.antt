-- ===== src/Tests/Packages.antt =====
-- app/es10/es10b_iot.py at concrete inputs.
use euicc_simulator.Prelude.{
  ◌≡◌, refl, some, [], ◌∷◌, codes, bytes_eq, default, find_ref, pop_at, sum_by, fromhex, hex,
}
use euicc_simulator.Prelude.Int.{pos, ◌+ℤ◌, ◌<ℤ◌, ◌≤ℤ◌}
use euicc_simulator.Euicc.{EimAssociation, find_profile_by_iccid}
use euicc_simulator.Es10c.{profile_size}
use euicc_simulator.Es10bIot.Eims.{assoc_of}
use euicc_simulator.Es10bIot.Package.{
  Psmo, delete, enable, raw, hex_text, psmo_iccid, swap_nibbles, execute_psmo, Package,
  counter_mismatch, results, ok, load_euicc_package, run_psmos, run_ecos,
}
use euicc_simulator.Es10bIot.Psmo.{psmo_delete_leaks}
use euicc_simulator.Es10bIot.Replay.{load_euicc_package_no_replay}
use euicc_simulator.Tests.Cards.{card, card-IsValid, iccid_b, profile_b}

abbrev delete_b : Psmo
delete_b = record { action = delete; iccid = raw iccid_b }

psmo_delete_leaks_example :
    let s' = (execute_psmo delete_b card).1 in
    (s'.profiles ≡ pop_at 1 card.profiles)
    × (s'.free_nvm ≡ card.free_nvm)
    × (s'.notifications ≡ card.notifications)
    × (s'.free_nvm +ℤ pos (sum_by profile_size s'.profiles)
        <ℤ card.free_nvm +ℤ pos (sum_by profile_size card.profiles))
unfolding psmo_iccid find_profile_by_iccid find_ref bytes_eq
psmo_delete_leaks_example = psmo_delete_leaks delete_b card 1 profile_b refl refl refl

-- The wire form of `iccid_b` has the nibbles of each byte swapped.
abbrev enable_b : Package
enable_b = record {
  eim_id = some (codes "EIM-A");
  counter_value = some (pos 5);
  psmo_list = record { action = enable; iccid = hex_text (codes "8901234567890123457f") } ∷ [];
  eco_list = [];
}

enable_b_runs :
    (load_euicc_package enable_b card).0 ≡ results (ok (codes "981032547698103254f7") ∷ []) []
unfolding load_euicc_package execute_psmo run_psmos run_ecos find_profile_by_iccid find_ref bytes_eq
    fromhex swap_nibbles hex
enable_b_runs = refl

load_euicc_package_no_replay_example :
    let s' = (load_euicc_package enable_b card).1 in
    ((a : EimAssociation) × (assoc_of (codes "EIM-A") card.eim_associations ≡ some a)
      × (a.counter_value <ℤ pos 5))
    × ((again : Package)
        → default again.eim_id [] ≡ codes "EIM-A"
        → default again.counter_value (pos 0) ≤ℤ pos 5
        → load_euicc_package again s' ≡ (counter_mismatch, s'))
load_euicc_package_no_replay_example =
    load_euicc_package_no_replay enable_b card _ _ card-IsValid tt enable_b_runs
