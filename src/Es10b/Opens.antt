-- ===== src/Es10b/Opens.antt =====
-- `load_bound_profile_package` of app/es10/es10b.py: how a package is opened that a server has secured
-- under the keys of the session, over app/crypto/ecdsa_engine.py and app/crypto/scp03t.py.
use euicc_simulator.Prelude.{
  ℕ, ◌≡◌, refl, sym, ◌∙◌, subst, true, some, [], ◌++◌, List, Bytes, truthy, length, take, replicate,
}
use mathlib.Core.Option.{some-injective}
use euicc_simulator.Euicc.{SessionKeys}
use euicc_simulator.Crypto.Certificates.{CertificateInfrastructure}
use euicc_simulator.Crypto.Channel.{verify_and_decrypt-secured}
use euicc_simulator.Crypto.EcdsaEngine.{derive_session_keys, generate_otpk}
use euicc_simulator.Crypto.Initialize.{TrustedFile}
use euicc_simulator.Crypto.Padding.{pad}
use euicc_simulator.Crypto.Scp03t.{Ciphers, big_endian, new_channel, generate_encryption_iv}
use euicc_simulator.Crypto.Signatures.{derive_session_keys_agree}
use euicc_simulator.Es10b.Engine.{Engine}
use euicc_simulator.Es10b.Handler.{Libraries, Moment, es10b_handler}
use euicc_simulator.Es10b.Load.{Bpp, first_elements, decrypted_elements}

-- A package of one sequence that holds padded data under the first keys of a channel, with the MAC.
pub record Secured (c : Ciphers) (keys : SessionKeys) (plain : Bytes) (bpp : Bpp) : Type 0 where
  pub mac : Bytes
  pub iv : Bytes
  pub padding : ℕ
  pub some_data : truthy bpp.first_sequence_of_87 ≡ true
  pub some_mac : truthy bpp.sequence_of_88 ≡ true
  pub no_second : bpp.second_sequence_of_87 ≡ []
  pub macs : c.cmac keys.s_mac (replicate 16 0 ++ bpp.first_sequence_of_87) ≡ some mac
  pub carries : take 8 bpp.sequence_of_88 ≡ take 8 mac
  pub whole : length (take 8 mac) ≡ 8
  pub starts : c.ecb_encrypt keys.s_enc (replicate 16 0) ≡ some iv
  pub encrypts : c.cbc_decrypt keys.s_enc iv bpp.first_sequence_of_87 ≡ some (pad padding plain)

decrypted_elements-secured :
    (e : Engine) (keys : SessionKeys) (plain : Bytes) (bpp : Bpp)
    → Secured e.ciphers keys plain bpp
    → decrypted_elements e (some keys) bpp ≡ some plain
unfolding decrypted_elements first_elements new_channel generate_encryption_iv big_endian
decrypted_elements-secured e keys plain bpp x =
    let opened =
      verify_and_decrypt-secured e.ciphers bpp.first_sequence_of_87 x.mac x.iv plain x.padding
        (new_channel keys) x.macs x.whole x.starts x.encrypts in
    rw (x.some_data, x.some_mac, x.carries, opened, x.no_second) refl

-- Where the eUICC and the server draw key pairs, with points of the curve, a shared secret and key
-- material of 64 bytes, and the server secures data, in one sequence, under the keys that it derives
-- from the eUICC's public key, the eUICC derives keys from the server's public key under which
-- `load_bound_profile_package` takes exactly that data out of the package.
pub decrypted_elements-derive_session_keys :
    {V : Type 0} (l : Libraries V) (pki : CertificateInfrastructure l.certs.Certificate)
    (at_start : List (TrustedFile l.certs)) (m : Moment l) (own server tid plain : Bytes)
    (keys : SessionKeys) (bpp : Bpp)
    → let e = es10b_handler l pki at_start m in
      let (own_private, own_public) = generate_otpk l.ecc own in
      let (server_private, server_public) = generate_otpk l.ecc server in
      l.ecc.is_point own_public ≡ true
      → l.ecc.is_point server_public ≡ true
      → l.ecc.exchange own_private server_public ≡ l.ecc.exchange server_private own_public
      → length (l.ecc.x963_kdf 64 tid (l.ecc.exchange own_private server_public)) ≡ 64
      → derive_session_keys l.ecc server_private own_public tid ≡ some keys
      → Secured l.ciphers keys plain bpp
      → (own_keys : SessionKeys) × (e.derive_session_keys own_private server_public tid
          ≡ some own_keys)
        × (decrypted_elements e (some own_keys) bpp ≡ some plain)
unfolding es10b_handler generate_otpk
decrypted_elements-derive_session_keys l pki at_start m own server tid plain keys bpp own_point
      server_point shared long derived secured =
    let e = es10b_handler l pki at_start m in
    let (k, ours, theirs, _, _) =
      derive_session_keys_agree l.ecc own server (l.ecc.public_bytes own)
        (l.ecc.public_bytes server) tid own_point server_point shared long in
    let same : k ≡ keys = some-injective k keys (sym theirs ∙ derived) in
    (
      k,
      ours,
      decrypted_elements-secured e k plain bpp
          (subst (λ x. Secured l.ciphers x plain bpp) (sym same) secured),
    )
