-- ===== src/Crypto/Channel.antt =====
-- `verify_and_decrypt` of app/crypto/scp03t.py: what it accepts, and how its state moves.
use euicc_simulator.Prelude.{
  ℕ, ◌+◌, ◌-◌, ◌≡◌, ◌≤◌, refl, false, some, ◌++◌, Bytes, bytes_eq_refl, bytes_eq→eq, arith, ltb,
  length, take, drop, length-append, take-append, drop-append,
}
use euicc_simulator.Prelude.Outcome.{returned}
use euicc_simulator.Crypto.Scp03t.{
  Ciphers, Scp03tProcessor, decrypt, compute_mac, verify_and_decrypt, generate_encryption_iv,
}
use euicc_simulator.Crypto.Padding.{pad, remove_padding-pad}

abbrev pub moved : Scp03tProcessor → Bytes → Scp03tProcessor
moved p mac = record p { mac_chaining_value = mac; encryption_counter = p.encryption_counter + 1 }

decrypt_counts :
    (c : Ciphers) (encrypted plain : Bytes) (p q : Scp03tProcessor)
    → decrypt c encrypted p ≡ (returned plain, q)
    → q ≡ record p { encryption_counter = p.encryption_counter + 1 }
unfolding decrypt
decrypt_counts c encrypted plain p q h = ground arith

-- A block is decrypted only if it has eight bytes at least and the last eight are the beginning of
-- the MAC of the chaining value and the bytes before them. The MAC then becomes the chaining value,
-- and the counter rises by one.
pub verify_and_decrypt_verified :
    (c : Ciphers) (secured plain : Bytes) (p q : Scp03tProcessor)
    → verify_and_decrypt c secured p ≡ (returned (some plain), q)
    → let n = length secured - 8 in
      (mac : Bytes) × (8 ≤ length secured)
      × (c.cmac p.session_keys.s_mac (p.mac_chaining_value ++ take n secured) ≡ some mac)
      × (take 8 mac ≡ drop n secured)
      × (q ≡ moved p mac)
unfolding verify_and_decrypt compute_mac
verify_and_decrypt_verified c secured plain p q h =
    let n = length secured - 8 in grind (arith, bytes_eq→eq, decrypt_counts)

-- A block that holds padded data under the ciphers and ends in the first eight bytes of its MAC is
-- decrypted to the data: the MAC is over the chaining value and the block, the decryption under the
-- vector of the counter.
pub verify_and_decrypt-secured :
    (c : Ciphers) (encrypted mac iv plain : Bytes) (k : ℕ) (p : Scp03tProcessor)
    → c.cmac p.session_keys.s_mac (p.mac_chaining_value ++ encrypted) ≡ some mac
    → length (take 8 mac) ≡ 8
    → generate_encryption_iv c p ≡ some iv
    → c.cbc_decrypt p.session_keys.s_enc iv encrypted ≡ some (pad k plain)
    → verify_and_decrypt c (encrypted ++ take 8 mac) p ≡ (returned (some plain), moved p mac)
unfolding verify_and_decrypt compute_mac decrypt
verify_and_decrypt-secured c encrypted mac iv plain k p m eight v d =
    let size = length-append encrypted (take 8 mac) in
    let n : length (encrypted ++ take 8 mac) - 8 ≡ length encrypted = omega (arith, size) in
    let long : ltb (length (encrypted ++ take 8 mac)) 8 ≡ false = ground (arith, size) in
    rw
      (
        n,
        long,
        take-append encrypted (take 8 mac),
        drop-append encrypted (take 8 mac),
        compute_mac,
        m,
        bytes_eq_refl (take 8 mac),
        decrypt,
        v,
        d,
        remove_padding-pad plain k,
      )
      refl
