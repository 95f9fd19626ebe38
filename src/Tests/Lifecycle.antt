-- ===== src/Tests/Lifecycle.antt =====
-- The memory and a whole download of app/es10/es10b.py at concrete inputs.
use euicc_simulator.Prelude.{
  is_in, ◌+◌, ◌*◌, ◌<◌, ◌≤◌, ℕ, ◌≡◌, refl, bytes_eq, some, none, [], ◌∷◌, arith, Bytes, bytes_eq,
}
use euicc_simulator.Prelude.Int.{pos}
use euicc_simulator.Prelude.Outcome.{returned}
use euicc_simulator.Euicc.{SessionKeys, ProfileSlot, EuiccState, new_euicc, disabled}
use euicc_simulator.Crypto.Scp03t.{
  new_channel, decrypt_profile_element, decrypt, generate_encryption_iv, remove_padding, skip_zeros,
  big_endian,
}
use euicc_simulator.Es10b.Engine.{
  ServerSigned1, SmdpSigned2, EuiccSigned1, EuiccSigned2, EuiccInfo2, other, ResultData, Engine,
}
use euicc_simulator.Es10b.Info.{get_euicc_info2, get_euicc_challenge}
use euicc_simulator.Es10b.Authenticate.{auth_ok, authenticate_server}
use euicc_simulator.Es10b.Prepare.{download_ok, first_trusted, prepare_download}
use euicc_simulator.Es10b.Load.{
  Bpp, installed, decrypted_elements, first_elements, load_bound_profile_package,
}
use euicc_simulator.Simulator.{challenge, perform}
use euicc_simulator.Simulator.Footprint.{features, used_nvm}
use euicc_simulator.Simulator.Reachability.{Reachable, start, step}
use euicc_simulator.Simulator.CardResource.{Reachable-free_nvm, Reachable-get_euicc_info2}
use euicc_simulator.Simulator.Download.{download_installs}
use euicc_simulator.Tests.Download.{engine}

abbrev challenged : EuiccState
challenged = perform engine (challenge (5 ∷ [])) (new_euicc [])

reached : Reachable engine [] challenged
reached = step (challenge (5 ∷ [])) (new_euicc []) start

Reachable-free_nvm_example :
    (features challenged ≡ features (new_euicc []))
    × ((n : ℕ) × (challenged.free_nvm ≡ pos n) × (n + used_nvm challenged ≤ 512 * 1024))
Reachable-free_nvm_example = Reachable-free_nvm engine [] challenged reached

Reachable-get_euicc_info2_example :
    (info : EuiccInfo2) × (a : ℕ) × (b : ℕ) × (c : ℕ) × (get_euicc_info2 engine challenged
      ≡ some info)
    × (info.ext_card_resource ≡ 0x82 ∷ 3 ∷ a ∷ b ∷ c ∷ 0x83 ∷ 3 ∷ 0 ∷ 28 ∷ 0 ∷ [])
    × (a < 256)
    × (b < 256)
    × (c < 256)
    × (challenged.free_nvm ≡ pos (a * 65536 + b * 256 + c))
Reachable-get_euicc_info2_example = Reachable-get_euicc_info2 engine [] challenged reached

abbrev session_keys : SessionKeys
session_keys = record { s_enc = 1 ∷ []; s_mac = 2 ∷ []; s_rmac = 3 ∷ []; receipt_key = 4 ∷ [] }

-- An engine that derives keys.
abbrev keyed_engine : Engine
keyed_engine = record engine { derive_session_keys = λ private public tid. some session_keys }

abbrev server : ServerSigned1
server = record {
  transaction_id = some (3 ∷ []);
  euicc_challenge = some (5 ∷ []);
  server_address = some (b's' ∷ []);
  server_challenge = some (6 ∷ []);
}

abbrev smdp : SmdpSigned2
smdp = record { transaction_id = some (3 ∷ []); bpp_euicc_otpk = some (7 ∷ []) }

abbrev bpp : Bpp
bpp = record {
  transaction_id = 3 ∷ [];
  first_sequence_of_87 = 1 ∷ 2 ∷ 0x80 ∷ 0 ∷ [];
  sequence_of_88 = [];
  second_sequence_of_87 = [];
  iccid = some (8 ∷ []);
  profile_name = none;
  sp_name = none;
}

download_installs_example :
    (r1 : EuiccSigned1) × (der1 : Bytes) × (s1 : Bytes) × (t1 : EuiccState) × (r2 : EuiccSigned2)
    × (s2 : Bytes) × (der2 : Bytes) × (t2 : EuiccState) × (r : ResultData) × (s3 : Bytes)
    × (p : ProfileSlot) × (t : EuiccState) × (authenticate_server keyed_engine server []
          (1 ∷ [])
          (9 ∷ [])
          other
          none
          (get_euicc_challenge (5 ∷ []) (new_euicc [])).1
        ≡ (returned (auth_ok r1 der1 s1 [] []), t1))
    × (prepare_download keyed_engine smdp [] none (some (9 ∷ [])) (some (2 ∷ [])) ([], 4 ∷ []) t1
        ≡ (returned (download_ok r2 s2 der2), t2))
    × (load_bound_profile_package keyed_engine bpp [] t2 ≡ (returned (installed r s3), t))
    × (t.profiles ≡ p ∷ [])
    × (p.state ≡ disabled)
    × (p.iccid ≡ 8 ∷ [])
    × (p.profile_data ≡ 1 ∷ 2 ∷ [])
    × (t.active_session ≡ none)
unfolding new_euicc is_in first_trusted decrypted_elements first_elements new_channel
    decrypt_profile_element decrypt generate_encryption_iv remove_padding skip_zeros big_endian
    bytes_eq
download_installs_example =
    download_installs keyed_engine [] server [] (1 ∷ []) (9 ∷ []) other none (9 ∷ []) [] (3 ∷ [])
      (6 ∷ []) (b's' ∷ []) smdp none (9 ∷ []) (2 ∷ []) (9 ∷ []) (7 ∷ []) ([], 4 ∷ []) session_keys
      (λ s. []) bpp (5 ∷ []) [] (1 ∷ 2 ∷ []) (λ x. []) (λ x. []) (λ x. []) (new_euicc []) start refl
      refl refl refl refl refl refl refl (λ s. refl) refl refl refl refl refl refl (omega arith)
      (omega arith) (λ x. refl) (λ x. refl) (λ x. refl)
