-- ===== src/Crypto/Scp03t.antt =====
-- app/crypto/scp03t.py. The ciphers of the `cryptography` package are the fields of `Ciphers`:
-- `none` is the exception that a key or a text of a wrong length raises. A method returns its
-- outcome and the processor, since an exception leaves what was assigned before it.
use euicc_simulator.Prelude.{
  ℕ, zero, suc, ◌+◌, ◌-◌, ◌/◌, ◌%◌, ◌^◌, not, Option, none, some, [], ◌∷◌, ◌++◌, Bytes, bytes_eq,
  ltb, ◌==◌, if◌then◌else◌, length, take, drop, get_or, replicate,
}
use euicc_simulator.Prelude.Outcome.{Outcome, returned, raised}
use euicc_simulator.Euicc.{SessionKeys}

pub record Ciphers : Type 0 where
  -- Key, initial vector, ciphertext.
  pub cbc_decrypt : Bytes → Bytes → Bytes → Option Bytes
  pub ecb_encrypt : Bytes → Bytes → Option Bytes
  pub cmac : Bytes → Bytes → Option Bytes

pub record Scp03tProcessor : Type 0 where
  pub session_keys : SessionKeys
  pub mac_chaining_value : Bytes
  pub encryption_counter : ℕ

unfoldable pub new_channel : SessionKeys → Scp03tProcessor
new_channel keys = record {
  session_keys = keys;
  mac_chaining_value = replicate 16 0;
  encryption_counter = 0;
}

-- The loop from the end: one more than the last index whose byte is not zero.
unfoldable pub skip_zeros : ℕ → Bytes → ℕ
skip_zeros zero padded = zero
skip_zeros (suc idx) padded =
    let rest = skip_zeros idx padded in if get_or padded idx 0 == 0 then rest else suc idx

abbrev pub cut_at : ℕ → Bytes → Bytes
cut_at zero padded = padded
cut_at (suc idx) padded = if get_or padded idx 0 == 0x80 then take idx padded else padded

unfoldable pub remove_padding : Bytes → Bytes
unfolding skip_zeros
remove_padding padded = cut_at (skip_zeros (length padded) padded) padded

-- `n.to_bytes(width, "big")` for a number that fits.
unfoldable pub big_endian : ℕ → ℕ → Bytes
big_endian zero n = []
big_endian (suc width) n = big_endian width (n / 256) ++ (n % 256) ∷ []

-- `none` is also the OverflowError of `to_bytes`.
unfoldable pub generate_encryption_iv : Ciphers → Scp03tProcessor → Option Bytes
unfolding big_endian
generate_encryption_iv c p =
    if ltb p.encryption_counter (2 ^ 128)
    then c.ecb_encrypt p.session_keys.s_enc (big_endian 16 p.encryption_counter)
    else none

abbrev pub unpadded : Option Bytes → Outcome Bytes
unpadded none = raised
unpadded (some padded) = returned (remove_padding padded)

-- `_decrypt`, and `decrypt_profile_element`, whose body is the same.
unfoldable pub decrypt : Ciphers → Bytes → Scp03tProcessor → Outcome Bytes × Scp03tProcessor
unfolding generate_encryption_iv remove_padding
decrypt c encrypted p = elim (generate_encryption_iv c p) [
  | none ↦ (raised, p)
  | some iv ↦ (
    unpadded (c.cbc_decrypt p.session_keys.s_enc iv encrypted),
    record p { encryption_counter = p.encryption_counter + 1 },
  )
]

unfoldable pub decrypt_profile_element :
    Ciphers → Bytes → Scp03tProcessor → Outcome Bytes × Scp03tProcessor
unfolding decrypt
decrypt_profile_element c encrypted p = decrypt c encrypted p

unfoldable pub compute_mac : Ciphers → Bytes → Scp03tProcessor → Outcome Bytes × Scp03tProcessor
compute_mac c message p = elim (c.cmac p.session_keys.s_mac (p.mac_chaining_value ++ message)) [
  | none ↦ (raised, p)
  | some mac ↦ (returned mac, record p { mac_chaining_value = mac })
]

unfoldable pub compute_response_mac : Ciphers → Bytes → Scp03tProcessor → Option Bytes
compute_response_mac c response p =
    elim (c.cmac p.session_keys.s_rmac (p.mac_chaining_value ++ response)) [
      | none ↦ none
      | some mac ↦ some (take 8 mac)
    ]

abbrev pub decrypted : Outcome Bytes × Scp03tProcessor → Outcome (Option Bytes) × Scp03tProcessor
decrypted (raised, p) = (raised, p)
decrypted (returned plain, p) = (returned (some plain), p)

-- The comparison of the MAC, and what follows it.
abbrev pub after_mac :
    Ciphers
    → Bytes
    → Bytes
    → Outcome Bytes × Scp03tProcessor
    → Outcome (Option Bytes) × Scp03tProcessor
after_mac c encrypted received (raised, p) = (raised, p)
after_mac c encrypted received (returned mac, p) =
    if not (bytes_eq (take 8 mac) received)
    then (returned none, p)
    else decrypted (decrypt c encrypted p)

-- `secured_data[:-8]` and `secured_data[-8:]` are cut at the length less eight.
unfoldable pub verify_and_decrypt :
    Ciphers → Bytes → Scp03tProcessor → Outcome (Option Bytes) × Scp03tProcessor
unfolding decrypt compute_mac
verify_and_decrypt c secured p =
    let n = length secured - 8 in
    if ltb (length secured) 8
    then (returned none, p)
    else after_mac c (take n secured) (drop n secured) (compute_mac c (take n secured) p)
