-- ===== src/Tests/Libraries.antt =====
-- The packages below app/es10/es10b.py at concrete operations, and the eUICC of a generated chain.
use euicc_simulator.Prelude.{ℕ, Bytes, true, none, some, [], ◌∷◌, bytes_eq, replicate, ◌++◌}
use euicc_simulator.Crypto.CertValidator.{Certificate, not_found, parsed}
use euicc_simulator.Crypto.Certificates.{
  CertFields, CertificateInfrastructure, KeyPairBundle, bundle, eum_fields, euicc_fields,
  generate_ci_root,
}
use euicc_simulator.Es10b.Engine.{Engine}
use euicc_simulator.Es10b.Handler.{Libraries, Moment, es10b_handler}
use euicc_simulator.Tests.Chains.{library, drawn_chain}

-- The generated chain: the CI's public key is 4 1.
abbrev pub ci : KeyPairBundle CertFields
ci = generate_ci_root library drawn_chain.ci

abbrev pub eum : KeyPairBundle CertFields
eum = bundle library drawn_chain.eum ci.private_key (eum_fields library drawn_chain.eum ci ci.ski)

abbrev pub pki : CertificateInfrastructure CertFields
pki = record {
  ci = ci;
  eum = eum;
  euicc =
      bundle library drawn_chain.euicc eum.private_key
        (euicc_fields library drawn_chain.euicc eum [] eum.ski);
}

-- The certificate of a server, which the CI signed.
abbrev pub server_certificate : Bytes → Certificate
server_certificate key = record {
  not_valid_before = 10;
  not_valid_after = 20;
  issuer = 1 ∷ [];
  subject = 2 ∷ [];
  public_key = some key;
  signature = [];
  tbs_certificate = [];
  subject_key_identifier = none;
  authority_key_identifier = not_found;
}

-- Only the CI's key verifies a certificate, and only the signature of 5 and 6 verifies data.
abbrev pub libraries : Libraries Bytes
libraries = record {
  certs = library;
  read = λ f. record (server_certificate f.public_key) {
    subject_key_identifier = f.subject_key_identifier;
  };
  public_bytes = λ f. f.public_key;
  x509 = record {
    load_der = λ der. parsed (server_certificate der);
    ecdsa_verify = λ key signature tbs. bytes_eq key (4 ∷ 1 ∷ []);
  };
  ecc = record {
    ecdsa_sign = λ private message. 5 ∷ 6 ∷ [];
    decode_dss_signature = λ der. (5, 6);
    encode_dss_signature = λ n. n.0 ∷ n.1 ∷ [];
    ecdsa_verify = λ public der message. bytes_eq der (5 ∷ 6 ∷ []);
    is_point = λ point. true;
    public_bytes = λ private. 4 ∷ private;
    exchange = λ private public. [];
    x963_kdf = λ size info secret. replicate size 1;
  };
  ciphers = record {
    cbc_decrypt = λ key iv message. some message;
    ecb_encrypt = λ key message. some message;
    cmac = λ key message. some message;
  };
  schema = record { encode_as = λ name value. some value; decode_as = λ name der. some der };
  dictionaries = record {
    server_signed1 = λ signed. [];
    euicc_signed1 = λ signed. [];
    euicc_signed2 = λ signed. [];
    result_data = λ result. [];
    cancel_session_signed = λ tid reason. [];
  };
}

-- The numbers 5 and 6, each in 32 bytes.
abbrev pub given_signature : Bytes
given_signature = replicate 31 0 ++ 5 ∷ (replicate 31 0 ++ 6 ∷ [])

abbrev pub at : ℕ → Moment libraries
at now = record { files = []; now = now }

abbrev pub handler : Moment libraries → Engine
handler = es10b_handler libraries pki []
