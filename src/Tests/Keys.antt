-- ===== src/Tests/Keys.antt =====
-- app/crypto/cert_validator.py and app/crypto/ecdsa_engine.py at concrete inputs.
use euicc_simulator.Prelude.{◌≡◌, ◌↔◌, refl, true, some, [], ◌∷◌, ◌++◌, length, replicate, bytes_eq}
use euicc_simulator.Euicc.{SessionKeys}
use euicc_simulator.Crypto.CertValidator.{
  Certificate, X509, not_found, parsed, trusted, validate_server_cert,
}
use euicc_simulator.Crypto.Validation.{Accepted, validate_server_cert_iff}
use euicc_simulator.Crypto.EcdsaEngine.{Ecc, derive_session_keys}
use euicc_simulator.Crypto.Signatures.{derive_session_keys_agree}

-- A certificate that the CI below signed, as every signature is accepted.
abbrev certificate : Certificate
certificate = record {
  not_valid_before = 10;
  not_valid_after = 20;
  issuer = 1 ∷ [];
  subject = 2 ∷ [];
  public_key = some (3 ∷ []);
  signature = [];
  tbs_certificate = [];
  subject_key_identifier = some (7 ∷ []);
  authority_key_identifier = not_found;
}

abbrev x509 : X509
x509 = record { load_der = λ der. parsed certificate; ecdsa_verify = λ key signature tbs. true }

validate_server_cert_iff_example :
    (validate_server_cert x509 (certificate ∷ []) 15 [] (7 ∷ []) ≡ trusted (3 ∷ []))
    ↔ Accepted x509 (certificate ∷ []) 15 [] (7 ∷ []) (3 ∷ [])
validate_server_cert_iff_example =
    validate_server_cert_iff x509 (certificate ∷ []) 15 [] (7 ∷ []) (3 ∷ [])

abbrev ecc : Ecc
ecc = record {
  ecdsa_sign = λ private message. message;
  decode_dss_signature = λ der. (5, 6);
  encode_dss_signature = λ n. n.0 ∷ n.1 ∷ [];
  ecdsa_verify = λ public der message. bytes_eq der (5 ∷ 6 ∷ []);
  is_point = λ point. true;
  public_bytes = λ private. 4 ∷ private;
  exchange = λ private public. [];
  x963_kdf = λ size info secret. replicate size 1;
}

derive_session_keys_agree_example :
    (k : SessionKeys) × (derive_session_keys ecc [] (2 ∷ []) [] ≡ some k)
    × (derive_session_keys ecc (9 ∷ []) (1 ∷ []) [] ≡ some k)
    × ((length k.s_enc ≡ 16)
        × (length k.s_mac ≡ 16)
        × (length k.s_rmac ≡ 16)
        × (length k.receipt_key ≡ 16))
    × (k.s_enc ++ (k.s_mac ++ (k.s_rmac ++ k.receipt_key)) ≡ replicate 64 1)
derive_session_keys_agree_example =
    derive_session_keys_agree ecc [] (9 ∷ []) (1 ∷ []) (2 ∷ []) [] refl refl refl refl
