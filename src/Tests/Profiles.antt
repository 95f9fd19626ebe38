-- ===== src/Tests/Profiles.antt =====
-- app/es10/es10c.py at concrete inputs.
use euicc_simulator.Prelude.{
  ◌≡◌, ◌⊎◌, refl, not, none, some, arith, bytes_eq, find_ref, pop_at, get_elem?, count, filter,
  sum_by,
}
use euicc_simulator.Prelude.Int.{pos, sub_ℕ, ◌+ℤ◌}
use euicc_simulator.Prelude.Outcome.{returned}
use euicc_simulator.Euicc.{enabled, is_enabled, find_profile_by_iccid}
use euicc_simulator.Es10c.{select_profile, with_state, profile_size, enable_profile, delete_profile}
use euicc_simulator.Es10c.Enable.{enable_profile_exclusive}
use euicc_simulator.Es10c.Delete.{delete_profile_reclaims}
use euicc_simulator.Es10c.Reset.{absent, all_flags, euicc_memory_reset}
use euicc_simulator.Es10c.Memory.{is_deletable, is_protected, euicc_memory_reset_keeps}
use euicc_simulator.Tests.Cards.{card, profile_b, iccid_b}

enable_profile_exclusive_example :
    let (code, s') = enable_profile (some iccid_b) none card in
    (code ≡ 0)
    × (get_elem? s'.profiles 1 ≡ some (with_state enabled profile_b))
    × (count is_enabled s'.profiles ≡ 1)
unfolding select_profile find_profile_by_iccid find_ref bytes_eq
enable_profile_exclusive_example =
    enable_profile_exclusive (some iccid_b) none card 1 profile_b refl refl (omega arith)

delete_profile_reclaims_example :
    let (code, s') = delete_profile (some iccid_b) none card in
    (code ≡ 0)
    × (s'.profiles ≡ pop_at 1 card.profiles)
    × (s'.free_nvm +ℤ pos (sum_by profile_size s'.profiles)
        ≡ card.free_nvm +ℤ pos (sum_by profile_size card.profiles))
unfolding select_profile find_profile_by_iccid find_ref bytes_eq
delete_profile_reclaims_example =
    delete_profile_reclaims (some iccid_b) none card 1 profile_b refl refl

euicc_memory_reset_keeps_example :
    let (outcome, s') = euicc_memory_reset absent card in
    (s'.profiles ≡ filter (λ p. not (is_deletable all_flags p)) card.profiles)
    × (filter is_protected s'.profiles ≡ filter is_protected card.profiles)
    × (((outcome ≡ returned 0)
          × (s'.free_nvm ≡ sub_ℕ card.total_nvm (sum_by profile_size s'.profiles)))
        ⊎ ((outcome ≡ returned 1) × (s' ≡ card)))
euicc_memory_reset_keeps_example = euicc_memory_reset_keeps absent all_flags card refl
