-- ===== src/Crypto/CertValidator.antt =====
-- app/crypto/cert_validator.py. What the x509 library does is a record of operations: `load_der`
-- parses a certificate or raises with a text, `ecdsa_verify` checks an ECDSA signature with SHA-256
-- over data under a key, false being its exception. Keys are represented by their encodings.
use euicc_simulator.Prelude.{
  ℕ, Bool, false, ◌&&◌, Option, none, some, List, [], ◌∷◌, ◌++◌, Bytes, Text, codes, hex, bytes_eq,
  ltb, if◌then◌else◌, default,
}

-- What reading the AuthorityKeyIdentifier of a certificate gives: another exception than
-- ExtensionNotFound, that one, or the extension, whose key identifier may be missing.
pub data AuthorityKey : Type 0 where
  unreadable not_found : AuthorityKey
  found : Option Bytes → AuthorityKey

-- A parsed certificate, as far as the code reads it. Times are numbers; a public key that cannot be
-- loaded is `none`, and so is a SubjectKeyIdentifier that is not there.
pub record Certificate : Type 0 where
  pub not_valid_before : ℕ
  pub not_valid_after : ℕ
  pub issuer : Bytes
  pub subject : Bytes
  pub public_key : Option Bytes
  pub signature : Bytes
  pub tbs_certificate : Bytes
  pub subject_key_identifier : Option Bytes
  pub authority_key_identifier : AuthorityKey

pub data Loaded : Type 0 where
  parsed : Certificate → Loaded
  malformed : Text → Loaded

pub record X509 : Type 0 where
  pub load_der : Bytes → Loaded
  -- Key, signature, data.
  pub ecdsa_verify : Bytes → Bytes → Bytes → Bool

-- The result of `validate_server_cert`: the server's key, the text of the error, or an exception.
pub data CertCheck : Type 0 where
  failed : CertCheck
  trusted : Bytes → CertCheck
  rejected : Text → CertCheck

-- `_get_ski`.
abbrev pub ski_of : Certificate → Bytes
ski_of c = default c.subject_key_identifier []

abbrev pub or_later : Option Certificate → Certificate → Option Certificate
or_later none c = some c
or_later (some later) c = some later

-- `self.ci_certs.get(ci_pkid)`: of the certificates with one identifier, the dictionary keeps the
-- last.
unfoldable pub ci_cert : Bytes → List Certificate → Option Certificate
ci_cert ci_pkid [] = none
ci_cert ci_pkid (c ∷ cs) =
    if bytes_eq (ski_of c) ci_pkid then or_later (ci_cert ci_pkid cs) c else ci_cert ci_pkid cs

-- `_verify_signature`, and the check of a certificate under its own key.
abbrev pub signed_by : X509 → Bytes → Certificate → Bool
signed_by x key c = x.ecdsa_verify key c.signature c.tbs_certificate

-- `aki.key_identifier == ci_pkid`.
abbrev pub names_issuer : Option Bytes → Bytes → Bool
names_issuer none ci_pkid = false
names_issuer (some key_identifier) ci_pkid = bytes_eq key_identifier ci_pkid

-- `return True, "", server_cert.public_key()`, outside a `try`.
abbrev pub with_key : Option Bytes → CertCheck
with_key none = failed
with_key (some key) = trusted key

-- Case 3, on the server's public key; inside its `try` a key that does not load is no success.
abbrev pub check_self : X509 → Certificate → Option Bytes → CertCheck
check_self x server none = rejected (codes "Certificate chain validation failed")
check_self x server (some key) =
    if bytes_eq server.issuer server.subject && signed_by x key server
    then trusted key
    else rejected (codes "Certificate chain validation failed")

-- Case 2, and what comes after it.
abbrev pub check_issuer : X509 → Bytes → Bytes → Certificate → AuthorityKey → CertCheck
check_issuer x ci_key ci_pkid server unreadable = failed
check_issuer x ci_key ci_pkid server not_found = check_self x server server.public_key
check_issuer x ci_key ci_pkid server (found aki) =
    if names_issuer aki ci_pkid && signed_by x ci_key server
    then with_key server.public_key
    else check_self x server server.public_key

-- The three cases, from the dates on, on the CI's public key.
unfoldable pub check_chain : X509 → Option Bytes → Bytes → Certificate → CertCheck
check_chain x none ci_pkid server = failed
check_chain x (some ci_key) ci_pkid server =
    if signed_by x ci_key server
    then with_key server.public_key
    else check_issuer x ci_key ci_pkid server server.authority_key_identifier

abbrev pub check_known : X509 → ℕ → Bytes → Certificate → Option Certificate → CertCheck
check_known x now ci_pkid server none = rejected (codes "Unknown CI PKI ID: " ++ hex ci_pkid)
check_known x now ci_pkid server (some ci) =
    if ltb now server.not_valid_before
    then rejected (codes "Certificate not yet valid")
    else if ltb server.not_valid_after now
    then rejected (codes "Certificate expired")
    else check_chain x ci.public_key ci_pkid server

abbrev pub check_loaded : X509 → List Certificate → ℕ → Bytes → Loaded → CertCheck
check_loaded x cis now ci_pkid (malformed e) = rejected (codes "Invalid certificate DER: " ++ e)
check_loaded x cis now ci_pkid (parsed server) =
    check_known x now ci_pkid server (ci_cert ci_pkid cis)

-- `cis` are the certificates of the constructor, which has read their identifiers, `now` is the time
-- of the call.
unfoldable pub validate_server_cert : X509 → List Certificate → ℕ → Bytes → Bytes → CertCheck
validate_server_cert x cis now server_cert_der ci_pkid =
    check_loaded x cis now ci_pkid (x.load_der server_cert_der)
