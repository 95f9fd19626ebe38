-- ===== src/Crypto/EcdsaEngine.antt =====
-- app/crypto/ecdsa_engine.py. What the `cryptography` package does is a record of operations on
-- encodings of keys; `none` is an exception.
use euicc_simulator.Prelude.{
  ℕ, ◌+◌, ◌*◌, ◌^◌, Bool, false, not, Option, none, some, [], ◌∷◌, ◌++◌, Bytes, ltb, ◌==◌,
  if◌then◌else◌, length, take, drop,
}
use euicc_simulator.Crypto.CertValidator.{X509, Loaded, parsed, malformed, signed_by}
use euicc_simulator.Crypto.Scp03t.{Ciphers, big_endian}
use euicc_simulator.Euicc.{SessionKeys}

pub record Ecc : Type 0 where
  -- The DER signature of a private key over data, with SHA-256.
  pub ecdsa_sign : Bytes → Bytes → Bytes
  -- A DER signature as its two numbers, and back.
  pub decode_dss_signature : Bytes → ℕ × ℕ
  pub encode_dss_signature : ℕ × ℕ → Bytes
  -- Public key, DER signature, data.
  pub ecdsa_verify : Bytes → Bytes → Bytes → Bool
  -- Whether a point's encoding is one of the curve.
  pub is_point : Bytes → Bool
  -- The point of a private key, uncompressed.
  pub public_bytes : Bytes → Bytes
  -- Private key, public key.
  pub exchange : Bytes → Bytes → Bytes
  -- Length, shared information, shared secret.
  pub x963_kdf : ℕ → Bytes → Bytes → Bytes

-- `n.to_bytes(width, "big")`; `none` is its OverflowError.
unfoldable pub int_to_bytes : ℕ → ℕ → Option Bytes
int_to_bytes width n = if ltb n (256 ^ width) then some (big_endian width n) else none

-- `int.from_bytes(bytes, "big")`, on the digits so far.
unfoldable pub from_bytes : ℕ → Bytes → ℕ
from_bytes acc [] = acc
from_bytes acc (b ∷ bs) = from_bytes (acc * 256 + b) bs

unfoldable pub get_public_key_bytes : Ecc → Bytes → Bytes
get_public_key_bytes lib private_key = lib.public_bytes private_key

-- `none` is the exception of bytes that are no point.
unfoldable pub load_public_key_from_bytes : Ecc → Bytes → Option Bytes
load_public_key_from_bytes lib public_bytes =
    if lib.is_point public_bytes then some public_bytes else none

-- The pair of the private key that is drawn.
unfoldable pub generate_otpk : Ecc → Bytes → Bytes × Bytes
generate_otpk lib private_key = (private_key, lib.public_bytes private_key)

abbrev pub raw_signature : Option Bytes → Option Bytes → Option Bytes
raw_signature none s = none
raw_signature (some r) none = none
raw_signature (some r) (some s) = some (r ++ s)

unfoldable pub sign : Ecc → Bytes → Bytes → Option Bytes
sign lib private_key message =
    let (r, s) = lib.decode_dss_signature (lib.ecdsa_sign private_key message) in
    raw_signature (int_to_bytes 32 r) (int_to_bytes 32 s)

unfoldable pub verify : Ecc → Bytes → Bytes → Bytes → Bool
verify lib public_key signature message =
    if not (length signature == 64)
    then false
    else lib.ecdsa_verify public_key
        (lib.encode_dss_signature
          (from_bytes 0 (take 32 signature), from_bytes 0 (drop 32 signature)))
        message

-- `key_material[i : i + 16]`.
abbrev pub slice : ℕ → Bytes → Bytes
slice i material = take 16 (drop i material)

unfoldable pub split_keys : Bytes → SessionKeys
split_keys material = record {
  s_enc = slice 0 material;
  s_mac = slice 16 material;
  s_rmac = slice 32 material;
  receipt_key = slice 48 material;
}

unfoldable pub derive_session_keys : Ecc → Bytes → Bytes → Bytes → Option SessionKeys
derive_session_keys lib private smdp_public transaction_id =
    if lib.is_point smdp_public
    then some (split_keys (lib.x963_kdf 64 transaction_id (lib.exchange private smdp_public)))
    else none

unfoldable pub compute_receipt : Ciphers → Bytes → Bytes → Option Bytes
compute_receipt c receipt_key message = c.cmac receipt_key message

abbrev pub verify_loaded : X509 → Bytes → Loaded → Option Bool
verify_loaded x issuer_public_key (malformed e) = none
verify_loaded x issuer_public_key (parsed cert) = some (signed_by x issuer_public_key cert)

-- `none` is the exception of a certificate that does not parse.
unfoldable pub verify_certificate_signature : X509 → Bytes → Bytes → Option Bool
verify_certificate_signature x cert_der issuer_public_key =
    verify_loaded x issuer_public_key (x.load_der cert_der)
