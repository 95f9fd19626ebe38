-- ===== src/Crypto/Initialize.antt =====
-- app/crypto/certificates.py: `initialize`, which generates or loads the chain, and the trusted CI
-- certificates.
use euicc_simulator.Prelude.{
  is_in, ◌>>=◌, Bool, false, not, ◌&&◌, ◌||◌, Option, none, some, List, [], ◌∷◌, ◌++◌, Bytes, Text,
  codes, bytes_eq, truthy, starts_with, if◌then◌else◌,
}
use euicc_simulator.Prelude.Outcome.{Outcome, raised}
use euicc_simulator.Euicc.{upper}
use euicc_simulator.Crypto.Certificates.{
  CertLib, KeyPairBundle, CertificateInfrastructure, FreshChain, Files, exists, generate_euicc_cert,
  load_key_pair, with_new_euicc, with_old_euicc, generate_full_chain, load_existing,
}

abbrev pub names_ski : Option (Option Bytes) → Bytes → Bool
names_ski (some (some key_identifier)) ski = bytes_eq key_identifier ski
names_ski (some none) ski = false
names_ski none ski = false

module _ (lib : CertLib) where
  abbrev pub issued_under : Option lib.Certificate → Bytes → Bool
  issued_under none ski = false
  issued_under (some certificate) ski =
      names_ski (lib.fields certificate).authority_key_identifier ski

  -- `_euicc_cert_chains_to`; its exceptions are false.
  unfoldable pub euicc_cert_chains_to : (KeyPairBundle lib.Certificate) → (Files lib.Content) → Bool
  euicc_cert_chains_to eum files =
      issued_under (files (codes "euicc_cert.pem") >>= lib.load_cert_pem) eum.ski

  abbrev pub key_pair :
      Option lib.Certificate → Option Bytes → Option (KeyPairBundle lib.Certificate)
  key_pair certificate key = do
    c ← certificate
    k ← key
    ski ← (lib.fields c).subject_key_identifier
    some record { private_key = k; certificate = c; ski = ski }

  -- `_load_sgp26_chain` on the directory of the package: the outer `none` is an exception, the inner one
  -- the result `None`.
  unfoldable pub load_sgp26_chain :
      (Files lib.Content)
      → Option (Option ((KeyPairBundle lib.Certificate) × (KeyPairBundle lib.Certificate)))
  load_sgp26_chain sgp26_dir =
      if exists (codes "CERT_CI_ECDSA_NIST.pem") sgp26_dir
        && (exists (codes "SK_CI_ECDSA_NIST.pem") sgp26_dir
            && (exists (codes "CERT_EUM_ECDSA_NIST.der") sgp26_dir
                && exists (codes "SK_EUM_ECDSA_NIST.pem") sgp26_dir))
      then (do
        ci ←
            key_pair (sgp26_dir (codes "CERT_CI_ECDSA_NIST.pem") >>= lib.load_cert_pem)
              (sgp26_dir (codes "SK_CI_ECDSA_NIST.pem") >>= lib.load_private_pem)
        eum ←
            key_pair (sgp26_dir (codes "CERT_EUM_ECDSA_NIST.der") >>= lib.load_cert_der)
              (sgp26_dir (codes "SK_EUM_ECDSA_NIST.pem") >>= lib.load_private_pem)
        some (some (ci, eum)))
      else some none

  module _ (fresh : FreshChain) (eid : Text) (force_regenerate : Bool) where
    -- The rest of `initialize`, from the SGP.26 chain on.
    abbrev pub initialize_with :
        Option (Option ((KeyPairBundle lib.Certificate) × (KeyPairBundle lib.Certificate)))
        → (Files lib.Content)
        → Outcome (CertificateInfrastructure lib.Certificate) × (Files lib.Content)
    initialize_with none files = (raised, files)
    initialize_with (some (some (ci, eum))) files =
        if exists (codes "euicc_private.pem") files
          && (not force_regenerate && euicc_cert_chains_to eum files)
        then with_old_euicc lib ci eum (load_key_pair lib (codes "euicc") files) files
        else with_new_euicc lib ci eum (generate_euicc_cert lib fresh.euicc eum eid) files
    initialize_with (some none) files =
        if exists (codes "ci_private.pem") files && not force_regenerate
        then load_existing lib fresh eid files
        else generate_full_chain lib fresh eid files

    -- `initialize` on the directory of the package and the eUICC's own.
    unfoldable pub initialize :
        (Files lib.Content)
        → (Files lib.Content)
        → Outcome (CertificateInfrastructure lib.Certificate) × (Files lib.Content)
    unfolding euicc_cert_chains_to load_sgp26_chain
    initialize sgp26_dir files =
        initialize_with
          (if starts_with (upper eid) (codes "89049032")
            then load_sgp26_chain sgp26_dir
            else some none)
          files

  -- A file of the trust directory, in the order of the names: its suffix in lower case, and the
  -- certificate that its content parses to.
  abbrev pub TrustedFile : Type 0
  TrustedFile = Text × Option lib.Certificate

  abbrev pub is_certificate_suffix : Text → Bool
  is_certificate_suffix suffix =
      bytes_eq suffix (codes ".crt")
      || (bytes_eq suffix (codes ".pem") || bytes_eq suffix (codes ".der"))

  abbrev pub extra_cis : List TrustedFile → List lib.Certificate
  extra_cis [] = []
  extra_cis ((suffix, none) ∷ rest) = extra_cis rest
  extra_cis ((suffix, some certificate) ∷ rest) =
      if is_certificate_suffix suffix then certificate ∷ extra_cis rest else extra_cis rest

  unfoldable pub get_trusted_ci_certs :
      (CertificateInfrastructure lib.Certificate) → List TrustedFile → List lib.Certificate
  get_trusted_ci_certs pki trusted = pki.ci.certificate ∷ extra_cis trusted

  -- One round of the loop, on the identifiers so far.
  abbrev pub with_pkid : Option Bytes → List Bytes → List Bytes
  with_pkid none ids = ids
  with_pkid (some ski) ids = if truthy ski && not (is_in ski ids) then ids ++ ski ∷ [] else ids

  abbrev pub pkids_of : List Bytes → List lib.Certificate → List Bytes
  pkids_of ids [] = ids
  pkids_of ids (c ∷ cs) = pkids_of (with_pkid (lib.fields c).subject_key_identifier ids) cs

  unfoldable pub get_trusted_ci_pkids :
      (CertificateInfrastructure lib.Certificate) → List TrustedFile → List Bytes
  unfolding get_trusted_ci_certs
  get_trusted_ci_pkids pki trusted = pkids_of [] (get_trusted_ci_certs pki trusted)
