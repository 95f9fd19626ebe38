-- ===== src/Crypto/Certificates/Fields.antt =====
-- app/crypto/certificates.py: the fields of a certificate, its names and key usages.
use euicc_simulator.Prelude.{
  ℕ, ◌-◌, ◌*◌, Bool, true, false, ◌||◌, Option, List, [], ◌∷◌, ◌++◌, Bytes, Text, codes, bytes_eq,
  length, drop,
}

pub data NameOid : Type 0 where
  common_name organization_name organizational_unit_name country_name serial_number : NameOid
  other_oid : Text → NameOid

abbrev pub Name : Type 0
Name = List (NameOid × Text)

pub record KeyUsage : Type 0 where
  pub digital_signature : Bool
  pub key_cert_sign : Bool
  pub crl_sign : Bool
  pub content_commitment : Bool
  pub key_encipherment : Bool
  pub data_encipherment : Bool
  pub key_agreement : Bool
  pub encipher_only : Bool
  pub decipher_only : Bool

-- What is set in a builder. The constraints are `ca` and `path_length`; an identifier of the issuer's
-- key may be missing from its extension.
pub record CertFields : Type 0 where
  pub subject : Name
  pub issuer : Name
  pub public_key : Bytes
  pub serial : ℕ
  pub not_valid_before : ℕ
  pub not_valid_after : ℕ
  pub basic_constraints : Option (Bool × ℕ)
  pub key_usage : Option KeyUsage
  pub subject_key_identifier : Option Bytes
  pub authority_key_identifier : Option (Option Bytes)

abbrev pub days : ℕ → ℕ
days n = n * 86400

abbrev pub ca_usage : KeyUsage
ca_usage = record {
  digital_signature = true;
  key_cert_sign = true;
  crl_sign = true;
  content_commitment = false;
  key_encipherment = false;
  data_encipherment = false;
  key_agreement = false;
  encipher_only = false;
  decipher_only = false;
}

abbrev pub euicc_usage : KeyUsage
euicc_usage = record ca_usage { key_agreement = true; key_cert_sign = false; crl_sign = false }

abbrev pub ca_subject : Text → Text → Name
ca_subject name unit =
    (common_name, name)
    ∷ (organization_name, codes "ConnectX IoT")
    ∷ (organizational_unit_name, unit)
    ∷ (country_name, codes "AE")
    ∷ []

abbrev pub is_sgp26 : Name → Bool
is_sgp26 [] = false
is_sgp26 ((organization_name, value) ∷ rest) =
    bytes_eq value (codes "RSP Test EUM") || is_sgp26 rest
is_sgp26 ((_, value) ∷ rest) = is_sgp26 rest

-- `f"eUICC-{eid[-8:]}"`.
abbrev pub euicc_name : Text → Text
euicc_name eid = codes "eUICC-" ++ drop (length eid - 8) eid

abbrev pub euicc_subject : Bool → Text → Name
euicc_subject true eid =
    (country_name, codes "ES")
    ∷ (organization_name, codes "RSP Test EUM")
    ∷ (serial_number, eid)
    ∷ (common_name, euicc_name eid)
    ∷ []
euicc_subject false eid =
    (common_name, euicc_name eid)
    ∷ (serial_number, eid)
    ∷ (organization_name, codes "ConnectX IoT")
    ∷ (organizational_unit_name, codes "eUICC Simulator")
    ∷ (country_name, codes "AE")
    ∷ []
