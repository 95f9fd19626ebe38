-- ===== src/Crypto/Certificates.antt =====
-- app/crypto/certificates.py: the chain of certificates of an eUICC and the directory that keeps it.
-- The x509 library is a record of operations; `sign` gives the certificate that a builder ends in,
-- `fields` what can be read from a certificate. Keys are represented by their encodings. A directory is a function from names to contents.
mod Fields
unfoldable pub use Fields.*
use euicc_simulator.Prelude.{
  ◌>>=◌, ℕ, ◌+◌, ◌*◌, Bool, true, false, Option, none, some, List, [], ◌∷◌, ◌++◌, Bytes, Text,
  codes, bytes_eq, if◌then◌else◌,
}
use euicc_simulator.Prelude.Outcome.{Outcome, returned, raised}

-- Certificates and the contents of files are the library's own types.
pub record CertLib : Type 1 where
  pub Certificate : Type 0
  pub Content : Type 0
  pub public_key : Bytes → Bytes
  pub key_identifier : Bytes → Bytes
  pub sign : Bytes → CertFields → Certificate
  pub fields : Certificate → CertFields
  pub private_pem : Bytes → Content
  pub load_private_pem : Content → Option Bytes
  pub cert_pem : Certificate → Content
  pub load_cert_pem : Content → Option Certificate
  pub cert_der : Certificate → Content
  pub load_cert_der : Content → Option Certificate

pub record KeyPairBundle (C : Type 0) : Type 0 where
  pub private_key : Bytes
  pub certificate : C
  pub ski : Bytes

pub record CertificateInfrastructure (C : Type 0) : Type 0 where
  pub ci : KeyPairBundle C
  pub eum : KeyPairBundle C
  pub euicc : KeyPairBundle C

-- What a certificate draws: its key, its serial number, and the two readings of the clock, in
-- seconds.
pub record Fresh : Type 0 where
  pub private_key : Bytes
  pub serial : ℕ
  pub before : ℕ
  pub after : ℕ

pub record FreshChain : Type 0 where
  pub ci : Fresh
  pub eum : Fresh
  pub euicc : Fresh

abbrev pub Files : Type 0 → Type 0
Files B = Text → Option B

abbrev pub write_bytes : {B : Type 0} → Text → B → Files B → Files B
write_bytes name content files other = if bytes_eq name other then some content else files other

abbrev pub is_there : {B : Type 0} → Option B → Bool
is_there none = false
is_there (some content) = true

abbrev pub exists : {B : Type 0} → Text → Files B → Bool
exists name files = is_there (files name)

module _ (lib : CertLib) where
  -- The new key with the certificate that `issuer` signs for it, and its identifier.
  abbrev pub bundle : Fresh → Bytes → CertFields → (KeyPairBundle lib.Certificate)
  bundle fresh issuer f = record {
    private_key = fresh.private_key;
    certificate = lib.sign issuer f;
    ski = lib.key_identifier (lib.public_key fresh.private_key);
  }

  -- The builder's calls that the three certificates share.
  abbrev pub built : Fresh → Name → Name → ℕ → CertFields
  built fresh subject issuer lifetime = record {
    subject = subject;
    issuer = issuer;
    public_key = lib.public_key fresh.private_key;
    serial = fresh.serial;
    not_valid_before = fresh.before;
    not_valid_after = fresh.after + days lifetime;
    basic_constraints = none;
    key_usage = none;
    subject_key_identifier = some (lib.key_identifier (lib.public_key fresh.private_key));
    authority_key_identifier = none;
  }

  abbrev pub ci_fields : Fresh → CertFields
  ci_fields fresh =
      let name = ca_subject (codes "ConnectX-GSMA-CI-Test") (codes "GSMA CI Simulator") in
      record (built fresh name name 3650) {
        basic_constraints = some (true, 1);
        key_usage = some ca_usage;
      }

  unfoldable pub generate_ci_root : Fresh → (KeyPairBundle lib.Certificate)
  generate_ci_root fresh = bundle fresh fresh.private_key (ci_fields fresh)

  abbrev pub eum_fields : Fresh → (KeyPairBundle lib.Certificate) → Bytes → CertFields
  eum_fields fresh ci aki =
      record (built fresh (ca_subject (codes "ConnectX-EUM-Test") (codes "eUICC Manufacturing"))
        (lib.fields ci.certificate).subject 1825) {
          basic_constraints = some (true, 0);
          key_usage = some ca_usage;
          authority_key_identifier = some (some aki);
        }

  -- `none` is the exception of an issuer without a SubjectKeyIdentifier.
  unfoldable pub generate_eum_cert :
      Fresh → (KeyPairBundle lib.Certificate) → Option (KeyPairBundle lib.Certificate)
  generate_eum_cert fresh ci = do
    aki ← (lib.fields ci.certificate).subject_key_identifier
    some (bundle fresh ci.private_key (eum_fields fresh ci aki))

  abbrev pub euicc_fields : Fresh → (KeyPairBundle lib.Certificate) → Text → Bytes → CertFields
  euicc_fields fresh eum eid aki =
      record (built fresh (euicc_subject (is_sgp26 (lib.fields eum.certificate).subject) eid)
        (lib.fields eum.certificate).subject 730) {
          key_usage = some euicc_usage;
          authority_key_identifier = some (some aki);
        }

  unfoldable pub generate_euicc_cert :
      Fresh → (KeyPairBundle lib.Certificate) → Text → Option (KeyPairBundle lib.Certificate)
  generate_euicc_cert fresh eum eid = do
    aki ← (lib.fields eum.certificate).subject_key_identifier
    some (bundle fresh eum.private_key (euicc_fields fresh eum eid aki))

  abbrev pub save_key_pair :
      Text → (KeyPairBundle lib.Certificate) → (Files lib.Content) → (Files lib.Content)
  save_key_pair name b files =
      write_bytes (name ++ codes "_cert.der") (lib.cert_der b.certificate) (
        write_bytes (name ++ codes "_cert.pem") (lib.cert_pem b.certificate)
          (write_bytes (name ++ codes "_private.pem") (lib.private_pem b.private_key) files))

  -- `none` is an exception: a file that is not there, or one that does not parse.
  unfoldable pub load_key_pair : Text → (Files lib.Content) → Option (KeyPairBundle lib.Certificate)
  load_key_pair name files = do
    key ← files (name ++ codes "_private.pem")
    private_key ← lib.load_private_pem key
    pem ← files (name ++ codes "_cert.pem")
    certificate ← lib.load_cert_pem pem
    ski ← (lib.fields certificate).subject_key_identifier
    some record { private_key = private_key; certificate = certificate; ski = ski }

  -- The eUICC's bundle is there, or its exception; a new one is saved.
  abbrev pub with_new_euicc :
      (KeyPairBundle lib.Certificate)
      → (KeyPairBundle lib.Certificate)
      → Option (KeyPairBundle lib.Certificate)
      → (Files lib.Content)
      → Outcome (CertificateInfrastructure lib.Certificate) × (Files lib.Content)
  with_new_euicc ci eum none files = (raised, files)
  with_new_euicc ci eum (some euicc) files = (
    returned record { ci = ci; eum = eum; euicc = euicc },
    save_key_pair (codes "euicc") euicc files,
  )

  abbrev pub with_old_euicc :
      (KeyPairBundle lib.Certificate)
      → (KeyPairBundle lib.Certificate)
      → Option (KeyPairBundle lib.Certificate)
      → (Files lib.Content)
      → Outcome (CertificateInfrastructure lib.Certificate) × (Files lib.Content)
  with_old_euicc ci eum none files = (raised, files)
  with_old_euicc ci eum (some euicc) files =
      (returned record { ci = ci; eum = eum; euicc = euicc }, files)

  module _ (fresh : FreshChain) (eid : Text) where
    abbrev pub with_new_eum :
        (KeyPairBundle lib.Certificate)
        → Option (KeyPairBundle lib.Certificate)
        → (Files lib.Content)
        → Outcome (CertificateInfrastructure lib.Certificate) × (Files lib.Content)
    with_new_eum ci none files = (raised, files)
    with_new_eum ci (some eum) files =
        with_new_euicc ci eum (generate_euicc_cert fresh.euicc eum eid)
          (save_key_pair (codes "eum") eum files)

    unfoldable pub generate_full_chain :
        (Files lib.Content)
        → Outcome (CertificateInfrastructure lib.Certificate) × (Files lib.Content)
    unfolding generate_ci_root generate_eum_cert generate_euicc_cert
    generate_full_chain files =
        let ci = generate_ci_root fresh.ci in
        with_new_eum ci (generate_eum_cert fresh.eum ci) (save_key_pair (codes "ci") ci files)

    abbrev pub loaded_issuers :
        Option (KeyPairBundle lib.Certificate)
        → Option (KeyPairBundle lib.Certificate)
        → (Files lib.Content)
        → Outcome (CertificateInfrastructure lib.Certificate) × (Files lib.Content)
    loaded_issuers (some ci) (some eum) files =
        if exists (codes "euicc_private.pem") files
        then with_old_euicc ci eum (load_key_pair (codes "euicc") files) files
        else with_new_euicc ci eum (generate_euicc_cert fresh.euicc eum eid) files
    loaded_issuers (some ci) none files = (raised, files)
    loaded_issuers none eum files = (raised, files)

    unfoldable pub load_existing :
        (Files lib.Content)
        → Outcome (CertificateInfrastructure lib.Certificate) × (Files lib.Content)
    unfolding load_key_pair
    load_existing files =
        loaded_issuers (load_key_pair (codes "ci") files) (load_key_pair (codes "eum") files) files
