-- ===== src/Es10b/Handler.antt =====
-- `Es10bHandler.__init__` of app/es10/es10b.py: the handler's Engine from the certificates of
-- app/crypto/certificates.py, the validator, the ECDSA engine and the ASN.1 codec.
use euicc_simulator.Prelude.{ℕ, List, [], map, Bytes, default}
use euicc_simulator.Crypto.CertValidator.{Certificate, X509, validate_server_cert}
use euicc_simulator.Crypto.Certificates.{CertLib, CertificateInfrastructure}
use euicc_simulator.Crypto.Initialize.{get_trusted_ci_certs, get_trusted_ci_pkids, TrustedFile}
use euicc_simulator.Crypto.EcdsaEngine.{Ecc, sign, verify, derive_session_keys}
use euicc_simulator.Crypto.Scp03t.{Ciphers}
use euicc_simulator.Services.Asn1Codec.{
  Schema, encode_server_signed1, encode_euicc_signed1, encode_euicc_signed2,
  encode_profile_installation_result_data, encode_cancel_session_signed,
}
use euicc_simulator.Es10b.Engine.{ServerSigned1, EuiccSigned1, EuiccSigned2, ResultData, Engine}

abbrev pub get_ci_pki_id : {C : Type 0} → CertificateInfrastructure C → Bytes
get_ci_pki_id pki = pki.ci.ski

-- The dictionaries that the records of the handler's data stand for.
pub record Dictionaries (V : Type 0) : Type 0 where
  pub server_signed1 : ServerSigned1 → V
  pub euicc_signed1 : EuiccSigned1 → V
  pub euicc_signed2 : EuiccSigned2 → V
  pub result_data : ResultData → V
  pub cancel_session_signed : Bytes → ℕ → V

-- The packages below the handler. `read` is a certificate as the validator reads it, `public_bytes` its
-- DER encoding.
pub record Libraries (V : Type 0) : Type 1 where
  pub certs : CertLib
  pub read : certs.Certificate → Certificate
  pub public_bytes : certs.Certificate → Bytes
  pub x509 : X509
  pub ecc : Ecc
  pub ciphers : Ciphers
  pub schema : Schema V
  pub dictionaries : Dictionaries V

module _ {V : Type 0} (l : Libraries V) where
  abbrev pub get_euicc_cert_der : CertificateInfrastructure l.certs.Certificate → Bytes
  get_euicc_cert_der pki = l.public_bytes pki.euicc.certificate

  abbrev pub get_eum_cert_der : CertificateInfrastructure l.certs.Certificate → Bytes
  get_eum_cert_der pki = l.public_bytes pki.eum.certificate

  -- What a call finds: the files of the trust directory, and the time.
  pub record Moment : Type 0 where
    pub files : List (TrustedFile l.certs)
    pub now : ℕ

  -- The certificates of the validator.
  abbrev pub ci_certs :
      CertificateInfrastructure l.certs.Certificate → List (TrustedFile l.certs) → List Certificate
  ci_certs pki at_start = map l.read (get_trusted_ci_certs l.certs pki at_start)

  -- The handler that was built with the trust directory `at_start`, in a call at a moment: the validator
  -- keeps the certificates of its construction, the identifiers are read at each call. The numbers
  -- of a P-256 signature fit in 32 bytes, so that `sign` does not raise.
  unfoldable pub es10b_handler :
      CertificateInfrastructure l.certs.Certificate → List (TrustedFile l.certs) → Moment → Engine
  unfolding get_trusted_ci_certs get_trusted_ci_pkids validate_server_cert verify sign
      derive_session_keys
  es10b_handler pki at_start m = record {
    trusted_ci_pkids = get_trusted_ci_pkids l.certs pki m.files;
    ci_pki_id = get_ci_pki_id pki;
    euicc_certificate = get_euicc_cert_der pki;
    eum_certificate = get_eum_cert_der pki;
    private_key = pki.euicc.private_key;
    validate_server_cert = λ certificate pkid.
        validate_server_cert l.x509 (ci_certs pki at_start) m.now certificate pkid;
    verify = λ key signature tbs. verify l.ecc key signature tbs;
    sign = λ key tbs. default (sign l.ecc key tbs) [];
    derive_session_keys = λ private public tid. derive_session_keys l.ecc private public tid;
    encode_server_signed1 =
        λ signed. encode_server_signed1 l.schema (l.dictionaries.server_signed1 signed);
    encode_euicc_signed1 =
        λ signed. encode_euicc_signed1 l.schema (l.dictionaries.euicc_signed1 signed);
    encode_euicc_signed2 =
        λ signed. encode_euicc_signed2 l.schema (l.dictionaries.euicc_signed2 signed);
    encode_result_data = λ result.
        encode_profile_installation_result_data l.schema (l.dictionaries.result_data result);
    encode_cancel_session_signed = λ tid reason.
        encode_cancel_session_signed l.schema (l.dictionaries.cancel_session_signed tid reason);
    ciphers = l.ciphers;
  }
