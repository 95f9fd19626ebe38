-- ===== src/Tests/Trust.antt =====
-- A download of app/es10/es10b.py over the certificates of app/crypto, at concrete inputs.
use euicc_simulator.Prelude.{
  is_in, ◌≡◌, refl, true, none, some, [], ◌∷◌, bytes_eq, replicate, ◌++◌, arith, length, codes,
}
use euicc_simulator.Prelude.Outcome.{returned}
use euicc_simulator.Euicc.{
  SessionKeys, DownloadSession, EuiccState, new_euicc, add_notification, allocate_isdp_aid,
  version_to_bytes, ext_card_resource_bytes,
}
use euicc_simulator.Crypto.CertValidator.{ci_cert, check_chain, validate_server_cert}
use euicc_simulator.Crypto.Certificates.{generate_ci_root}
use euicc_simulator.Crypto.Initialize.{get_trusted_ci_certs, get_trusted_ci_pkids}
use euicc_simulator.Crypto.Scp03t.{big_endian}
use euicc_simulator.Crypto.EcdsaEngine.{
  generate_otpk, derive_session_keys, split_keys, from_bytes, verify, sign, int_to_bytes,
}
use euicc_simulator.Es10b.Engine.{
  ServerSigned1, SmdpSigned2, other, ResultData, EuiccInfo2, EuiccSigned1,
}
use euicc_simulator.Es10b.Handler.{get_euicc_cert_der, get_eum_cert_der, es10b_handler}
use euicc_simulator.Es10b.Info.{get_euicc_info2, get_euicc_challenge}
use euicc_simulator.Es10b.Authenticate.{
  echo_ctx, required, respond_auth, complete_auth, check_server, check_certificate,
  authenticate_server,
}
use euicc_simulator.Es10b.Prepare.{accepts, derive, complete_prepare, prepare_in, prepare_download}
use euicc_simulator.Es10b.Load.{
  Bpp, installed, decrypted_elements, install, check_room, load_in, load_bound_profile_package,
}
use euicc_simulator.Services.Asn1Codec.{encode_euicc_signed1}
use euicc_simulator.Es10b.Responds.{EccLaws, authenticate_server_verifiable}
use euicc_simulator.Es10b.Opens.{Secured, decrypted_elements-derive_session_keys}
use euicc_simulator.Crypto.Padding.{pad}
use euicc_simulator.Crypto.Chain.{Issued}
use euicc_simulator.Simulator.{Command, challenge, authenticate, prepare, load, perform}
use euicc_simulator.Simulator.Trust.{
  ReachableOver, created, called, Trusted, load_bound_profile_package-Trusted,
}
use euicc_simulator.Tests.Chains.{library}
use euicc_simulator.Tests.Libraries.{eum, pki, libraries, given_signature, at, handler}

abbrev server : ServerSigned1
server = record {
  transaction_id = some (3 ∷ []);
  euicc_challenge = some (5 ∷ []);
  server_address = some [];
  server_challenge = some [];
}

abbrev smdp : SmdpSigned2
smdp = record { transaction_id = some (3 ∷ []); bpp_euicc_otpk = none }

abbrev login : Command
login = authenticate server given_signature (4 ∷ 1 ∷ []) (9 ∷ []) other none

abbrev agree : Command
agree = prepare smdp [] none none none ([], 4 ∷ [])

abbrev challenged : EuiccState
challenged = perform (handler (at 14)) (challenge (5 ∷ [])) (new_euicc [])

abbrev authenticated_state : EuiccState
authenticated_state = perform (handler (at 15)) login challenged

abbrev prepared_state : EuiccState
prepared_state = perform (handler (at 16)) agree authenticated_state

reached : ReachableOver handler [] prepared_state
reached =
    called (at 16) agree authenticated_state
      (called (at 15) login challenged (called (at 14) (challenge (5 ∷ [])) (new_euicc []) created))

abbrev bpp : Bpp
bpp = record {
  transaction_id = [];
  first_sequence_of_87 = 1 ∷ 2 ∷ [];
  sequence_of_88 = [];
  second_sequence_of_87 = [];
  iccid = some (8 ∷ []);
  profile_name = none;
  sp_name = none;
}

-- The profile comes when the certificate has expired.
abbrev loaded : EuiccState
loaded = perform (handler (at 21)) (load bpp []) prepared_state

abbrev outcome : ResultData
outcome = record {
  transaction_id = 3 ∷ [];
  seq_number = 1;
  notification_address = [];
  iccid = 8 ∷ [];
  aid =
      0xA0 ∷ 0 ∷ 0 ∷ 5 ∷ 0x59 ∷ 0x10 ∷ 0x10 ∷ 0xFF ∷ 0xFF ∷ 0xFF ∷ 0xFF ∷ 0x89 ∷ 0 ∷ 0 ∷ 1 ∷ 0 ∷ [];
}

returns :
    load_bound_profile_package (handler (at 21)) bpp [] prepared_state
    ≡ (returned (installed outcome given_signature), loaded)
unfolding new_euicc get_euicc_challenge authenticate_server check_certificate check_server
    complete_auth respond_auth get_euicc_info2 version_to_bytes ext_card_resource_bytes is_in
    prepare_download prepare_in accepts complete_prepare derive bytes_eq load_bound_profile_package
    load_in decrypted_elements check_room install add_notification allocate_isdp_aid es10b_handler
    get_trusted_ci_certs get_trusted_ci_pkids generate_ci_root validate_server_cert ci_cert
    check_chain verify from_bytes sign int_to_bytes big_endian
returns = refl

load_bound_profile_package-Trusted_example :
    (d : DownloadSession) × (prepared_state.active_session ≡ some d)
    × (d.prepared ≡ true)
    × Trusted libraries pki [] d.server_public_key
load_bound_profile_package-Trusted_example =
    load_bound_profile_package-Trusted libraries pki [] [] (at 21) prepared_state loaded bpp []
      outcome given_signature reached returns

laws : EccLaws libraries.ecc library.public_key
unfolding bytes_eq
laws = record {
  fits = λ key tbs. (omega arith, omega arith);
  encode-decode = λ key tbs. refl;
  verify-sign_own = λ key tbs. refl;
}

issued : Issued library eum pki.euicc
unfolding generate_ci_root
issued = record { signed = refl; named = refl; linked = refl; own_ski = refl; own_key = refl }

-- What the eUICC answers of itself.
abbrev own_info : EuiccInfo2
own_info = record {
  profile_version = 2 ∷ 3 ∷ 1 ∷ [];
  svn = 3 ∷ 1 ∷ 0 ∷ [];
  firmware_version = 1 ∷ 0 ∷ 0 ∷ [];
  ext_card_resource = 0x82 ∷ 3 ∷ 7 ∷ 0x80 ∷ 0 ∷ 0x83 ∷ 3 ∷ 0 ∷ 0x1C ∷ 0 ∷ [];
  uicc_capability = 7 ∷ 0x73 ∷ [];
  rsp_capability = 4 ∷ 0x90 ∷ [];
  for_verification = (4 ∷ 1 ∷ []) ∷ [];
  for_signing = (4 ∷ 1 ∷ []) ∷ [];
  pp_version = 0 ∷ 0 ∷ 0 ∷ [];
  sas_accreditation_number = [];
  platform_label = codes "ConnectX-eUICC-Simulator";
  discovery_base_url = codes "https://euicc.connectxiot.com";
  ipa_mode = 0;
  iot_version = 1 ∷ 2 ∷ 0 ∷ [];
}

abbrev signed_answer : EuiccSigned1
signed_answer = record {
  transaction_id = 3 ∷ [];
  server_address = [];
  server_challenge = [];
  euicc_info2 = own_info;
  ctx_params1 = echo_ctx other;
}

authenticate_server_verifiable_example :
    (required server ≡ some (3 ∷ [], [], []))
    × (encode_euicc_signed1 libraries.schema [] ≡ some [])
    × (length given_signature ≡ 64)
    × (verify libraries.ecc (4 ∷ 3 ∷ []) given_signature [] ≡ true)
    × (4 ∷ 3 ∷ [] ≡ get_euicc_cert_der libraries pki)
    × (4 ∷ 2 ∷ [] ≡ get_eum_cert_der libraries pki)
    × ((d : DownloadSession) × (authenticated_state.active_session ≡ some d)
        × (d.euicc_signature1 ≡ given_signature))
unfolding new_euicc get_euicc_challenge authenticate_server check_certificate check_server
    complete_auth respond_auth get_euicc_info2 version_to_bytes ext_card_resource_bytes is_in
    bytes_eq es10b_handler get_trusted_ci_certs get_trusted_ci_pkids generate_ci_root
    validate_server_cert ci_cert check_chain verify from_bytes sign int_to_bytes big_endian
authenticate_server_verifiable_example =
    authenticate_server_verifiable libraries laws pki [] (at 15) issued server given_signature
      (4 ∷ 1 ∷ []) (9 ∷ []) other none challenged authenticated_state signed_answer []
      given_signature (4 ∷ 3 ∷ []) (4 ∷ 2 ∷ []) refl

-- The elements 7 and 8, padded, with a MAC that is the chaining value.
abbrev secured_bpp : Bpp
secured_bpp = record bpp {
  first_sequence_of_87 = pad 5 (7 ∷ 8 ∷ []);
  sequence_of_88 = replicate 16 0;
}

abbrev session_keys : SessionKeys
session_keys = record {
  s_enc = replicate 16 1;
  s_mac = replicate 16 1;
  s_rmac = replicate 16 1;
  receipt_key = replicate 16 1;
}

secured : Secured libraries.ciphers session_keys (7 ∷ 8 ∷ []) secured_bpp
secured = record {
  mac = replicate 16 0 ++ pad 5 (7 ∷ 8 ∷ []);
  iv = replicate 16 0;
  padding = 5;
  some_data = refl;
  some_mac = refl;
  no_second = refl;
  macs = refl;
  carries = refl;
  whole = refl;
  starts = refl;
  encrypts = refl;
}

decrypted_elements-derive_session_keys_example :
    (own_keys : SessionKeys) × ((handler (at 16)).derive_session_keys (1 ∷ []) (4 ∷ 2 ∷ []) (3 ∷ [])
      ≡ some own_keys)
    × (decrypted_elements (handler (at 16)) (some own_keys) secured_bpp ≡ some (7 ∷ 8 ∷ []))
unfolding generate_otpk derive_session_keys split_keys
decrypted_elements-derive_session_keys_example =
    decrypted_elements-derive_session_keys libraries pki [] (at 16) (1 ∷ []) (2 ∷ []) (3 ∷ [])
      (7 ∷ 8 ∷ []) session_keys secured_bpp refl refl refl refl refl secured
