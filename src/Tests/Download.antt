-- ===== src/Tests/Download.antt =====
-- A download of app/es10/es10b.py at concrete inputs.
use euicc_simulator.Prelude.{is_in, ◌≡◌, Bytes, refl, true, none, some, [], ◌∷◌, default, bytes_eq}
use euicc_simulator.Prelude.Outcome.{returned}
use euicc_simulator.Euicc.{
  DownloadSession, EuiccState, new_euicc, add_notification, allocate_isdp_aid, version_to_bytes,
  ext_card_resource_bytes,
}
use euicc_simulator.Euicc.Valid.{IsValid}
use euicc_simulator.Crypto.CertValidator.{trusted}
use euicc_simulator.Es10b.Engine.{ServerSigned1, SmdpSigned2, other, ResultData, Engine}
use euicc_simulator.Es10b.Info.{get_euicc_info2, get_euicc_challenge}
use euicc_simulator.Es10b.Authenticate.{
  unwrapped, server_tbs, respond_auth, complete_auth, check_server, check_certificate,
  authenticate_server,
}
use euicc_simulator.Es10b.Prepare.{
  first_trusted, accepts, derive, complete_prepare, prepare_in, prepare_download,
}
use euicc_simulator.Es10b.Load.{
  Bpp, installed, decrypted_elements, install, check_room, load_in, load_bound_profile_package,
}
use euicc_simulator.Es10b.Authenticated.{authenticate_server_success}
use euicc_simulator.Es10b.Prepared.{SignatureIsValid, prepare_download_success}
use euicc_simulator.Es10b.Installs.{
  Installed, load_bound_profile_package_installs, load_bound_profile_package_refuses,
}
use euicc_simulator.Simulator.{Command, challenge, authenticate, prepare, load, perform}
use euicc_simulator.Simulator.Reachability.{Reachable, start, step, Reachable-IsValid}

-- A PKI of one certificate; signatures are accepted, encodings are empty.
abbrev pub engine : Engine
engine = record {
  trusted_ci_pkids = (1 ∷ []) ∷ [];
  ci_pki_id = 1 ∷ [];
  euicc_certificate = [];
  eum_certificate = [];
  private_key = [];
  validate_server_cert = λ certificate pkid. trusted certificate;
  verify = λ key signature tbs. true;
  sign = λ key tbs. [];
  derive_session_keys = λ private public tid. none;
  encode_server_signed1 = λ signed. some [];
  encode_euicc_signed1 = λ signed. some [];
  encode_euicc_signed2 = λ signed. some [];
  encode_result_data = λ result. some [];
  encode_cancel_session_signed = λ tid reason. some [];
  ciphers = record {
    cbc_decrypt = λ key iv message. some message;
    ecb_encrypt = λ key message. some message;
    cmac = λ key message. some message;
  };
}

abbrev server : ServerSigned1
server = record {
  transaction_id = some (3 ∷ []);
  euicc_challenge = some (5 ∷ []);
  server_address = some [];
  server_challenge = some [];
}

abbrev smdp : SmdpSigned2
smdp = record { transaction_id = some (3 ∷ []); bpp_euicc_otpk = none }

abbrev login : Command
login = authenticate server [] (1 ∷ []) (9 ∷ []) other none

abbrev agree : Command
agree = prepare smdp [] none none none ([], 4 ∷ [])

abbrev challenged : EuiccState
challenged = perform engine (challenge (5 ∷ [])) (new_euicc [])

abbrev authenticated_state : EuiccState
authenticated_state = perform engine login challenged

abbrev prepared_state : EuiccState
prepared_state = perform engine agree authenticated_state

reached : Reachable engine [] prepared_state
reached =
    step agree authenticated_state
      (step login challenged (step (challenge (5 ∷ [])) (new_euicc []) start))

abbrev bpp : Bpp
bpp = record {
  transaction_id = [];
  first_sequence_of_87 = 1 ∷ 2 ∷ [];
  sequence_of_88 = [];
  second_sequence_of_87 = [];
  iccid = some (8 ∷ []);
  profile_name = none;
  sp_name = none;
}

Reachable-IsValid_example : IsValid prepared_state
Reachable-IsValid_example = Reachable-IsValid engine [] prepared_state reached

prepare_download_success_example :
    (d : DownloadSession) × (authenticated_state.active_session ≡ some d)
    × (d.authenticated ≡ true)
    × (default smdp.transaction_id [] ≡ d.transaction_id)
    × SignatureIsValid engine [] (some (9 ∷ [])) (some (6 ∷ [])) d
    × ((d' : DownloadSession) × (prepared_state.active_session ≡ some d') × (d'.prepared ≡ true))
unfolding new_euicc get_euicc_challenge authenticate_server check_certificate check_server
    complete_auth respond_auth get_euicc_info2 version_to_bytes ext_card_resource_bytes is_in
    prepare_download prepare_in accepts first_trusted complete_prepare derive bytes_eq
prepare_download_success_example =
    prepare_download_success engine smdp
      record { transaction_id = 3 ∷ []; euicc_otpk = 4 ∷ []; hash_cc = none } [] [] [] none
      (some (9 ∷ [])) (some (6 ∷ [])) ([], 4 ∷ []) authenticated_state prepared_state refl

abbrev loaded : EuiccState
loaded = perform engine (load bpp []) prepared_state

abbrev outcome : ResultData
outcome = record {
  transaction_id = 3 ∷ [];
  seq_number = 1;
  notification_address = [];
  iccid = 8 ∷ [];
  aid =
      0xA0 ∷ 0 ∷ 0 ∷ 5 ∷ 0x59 ∷ 0x10 ∷ 0x10 ∷ 0xFF ∷ 0xFF ∷ 0xFF ∷ 0xFF ∷ 0x89 ∷ 0 ∷ 0 ∷ 1 ∷ 0 ∷ [];
}

returns :
    load_bound_profile_package engine bpp [] prepared_state
    ≡ (returned (installed outcome []), loaded)
unfolding new_euicc get_euicc_challenge authenticate_server check_certificate check_server
    complete_auth respond_auth get_euicc_info2 version_to_bytes ext_card_resource_bytes is_in
    prepare_download prepare_in accepts complete_prepare derive bytes_eq load_bound_profile_package
    load_in decrypted_elements check_room install add_notification allocate_isdp_aid
returns = refl

load_bound_profile_package_installs_example :
    ((d : DownloadSession) × (prepared_state.active_session ≡ some d) × (d.prepared ≡ true))
    × Installed prepared_state loaded
load_bound_profile_package_installs_example =
    load_bound_profile_package_installs engine bpp [] prepared_state loaded outcome [] returns

-- The session of a challenge is not prepared.
load_bound_profile_package_refuses_example : challenged ≡ challenged
unfolding get_euicc_challenge load_bound_profile_package load_in
load_bound_profile_package_refuses_example =
    load_bound_profile_package_refuses engine bpp [] challenged challenged [] 0 4 refl

authenticate_server_success_example :
    (d : DownloadSession) × (key : Bytes) × (tbs : Bytes) × (challenged.active_session ≡ some d)
    × (is_in (unwrapped (1 ∷ [])) engine.trusted_ci_pkids ≡ true)
    × (engine.validate_server_cert (9 ∷ []) (unwrapped (1 ∷ [])) ≡ trusted key)
    × (server_tbs engine server none ≡ some tbs)
    × (engine.verify key [] tbs ≡ true)
    × (default server.euicc_challenge [] ≡ d.euicc_challenge)
unfolding new_euicc get_euicc_challenge authenticate_server check_certificate check_server
    complete_auth respond_auth get_euicc_info2 version_to_bytes ext_card_resource_bytes is_in
    prepare_download prepare_in accepts complete_prepare derive bytes_eq
authenticate_server_success_example =
    authenticate_server_success engine server [] (1 ∷ []) (9 ∷ []) other none challenged
      authenticated_state _ _ _ _ _ refl
