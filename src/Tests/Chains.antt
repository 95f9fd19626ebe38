-- ===== src/Tests/Chains.antt =====
-- app/crypto/certificates.py at concrete inputs: a certificate is its fields, and a file holds a key or
-- a certificate.
use euicc_simulator.Prelude.{
  ◌≡◌, refl, false, Option, none, some, [], ◌∷◌, Bytes, codes, starts_with,
}
use euicc_simulator.Prelude.Outcome.{returned}
use euicc_simulator.Euicc.{upper}
use euicc_simulator.Crypto.Certificates.{
  CertFields, CertLib, CertificateInfrastructure, Fresh, FreshChain, Files,
}
use euicc_simulator.Crypto.Initialize.{initialize}
use euicc_simulator.Crypto.Chain.{CertLaws, Linked, initialize_generates}

abbrev pub library : CertLib
library = record {
  Certificate = CertFields;
  Content = Bytes × Option CertFields;
  public_key = λ key. 4 ∷ key;
  key_identifier = λ key. key;
  sign = λ key f. f;
  fields = λ f. f;
  private_pem = λ key. (key, none);
  load_private_pem = λ content. some content.0;
  cert_pem = λ f. ([], some f);
  load_cert_pem = λ content. content.1;
  cert_der = λ f. ([], some f);
  load_cert_der = λ content. content.1;
}

abbrev library_laws : CertLaws library
library_laws = record {
  fields-sign = λ key f. refl;
  load-private_pem = λ key. refl;
  load-cert_pem = λ f. refl;
}

abbrev drawn_key : Bytes → Fresh
drawn_key key = record { private_key = key; serial = 7; before = 100; after = 101 }

abbrev pub drawn_chain : FreshChain
drawn_chain = record {
  ci = drawn_key (1 ∷ []);
  eum = drawn_key (2 ∷ []);
  euicc = drawn_key (3 ∷ []);
}

abbrev redrawn_chain : FreshChain
redrawn_chain = record {
  ci = drawn_key (5 ∷ []);
  eum = drawn_key (6 ∷ []);
  euicc = drawn_key (7 ∷ []);
}

abbrev no_files : Files (Bytes × Option CertFields)
no_files name = none

initialize_generates_example :
    (pki : CertificateInfrastructure CertFields) × (files : Files (Bytes × Option CertFields))
    × Linked library library_laws pki
    × (initialize library drawn_chain (codes "88") false no_files no_files ≡ (returned pki, files))
    × (initialize library redrawn_chain (codes "88") false no_files files ≡ (returned pki, files))
unfolding starts_with upper
initialize_generates_example =
    initialize_generates library library_laws drawn_chain redrawn_chain (codes "88") no_files
      no_files refl refl
