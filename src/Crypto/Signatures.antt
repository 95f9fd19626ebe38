-- ===== src/Crypto/Signatures.antt =====
-- Signatures and session keys of app/crypto/ecdsa_engine.py.
use native.Mathlib.Nat.{pow-suc}
use euicc_simulator.Prelude.{
  ℕ, zero, suc, ◌+◌, ◌*◌, ◌/◌, ◌%◌, ◌^◌, ◌<◌, ◌≤◌, ◌≡◌, refl, subst, ◌∙◌, true, some, [], ◌∷◌, ◌++◌,
  Bytes, arith, ltb, length, take, drop, length-append, take-append, drop-append, length-take,
  length-drop, take-append-drop, take_all,
}
use euicc_simulator.Crypto.Scp03t.{big_endian}
use euicc_simulator.Euicc.{SessionKeys}
use euicc_simulator.Crypto.EcdsaEngine.{
  Ecc, int_to_bytes, from_bytes, sign, verify, slice, split_keys, derive_session_keys,
}

length-big_endian : (width n : ℕ) → length (big_endian width n) ≡ width
unfolding big_endian
length-big_endian zero n = refl
length-big_endian (suc width) n = omega (
  arith,
  length-append (big_endian width (n / 256)) ((n % 256) ∷ []),
  length-big_endian width (n / 256),
)

from_bytes-snoc :
    (acc : ℕ) (xs : Bytes) (x : ℕ) → from_bytes acc (xs ++ x ∷ []) ≡ from_bytes acc xs * 256 + x
unfolding from_bytes
from_bytes-snoc acc [] x = refl
from_bytes-snoc acc (y ∷ xs) x = from_bytes-snoc (acc * 256 + y) xs x

-- The digits of a number that fits are read back.
from_bytes-big_endian : (width n : ℕ) → n < 256 ^ width → from_bytes 0 (big_endian width n) ≡ n
unfolding big_endian
from_bytes-big_endian zero n h = unfold from_bytes in omega (arith, h)
from_bytes-big_endian (suc width) n h =
    let small : n / 256 < 256 ^ width = omega (arith, h, pow-suc 256 width) in
    from_bytes-snoc 0 (big_endian width (n / 256)) (n % 256)
    ∙ rw (from_bytes-big_endian width (n / 256) small) (omega arith)

int_to_bytes_fits :
    (width n : ℕ) → n < 256 ^ width → int_to_bytes width n ≡ some (big_endian width n)
unfolding int_to_bytes
int_to_bytes_fits width n h =
    let fits : ltb n (256 ^ width) ≡ true = ground (arith, h) in rw (int_to_bytes, fits) refl

-- The two halves of a raw signature are read back as the numbers of the DER signature.
verify_halves :
    (lib : Ecc) (public message : Bytes) (r s : ℕ)
    → r < 256 ^ 32
    → s < 256 ^ 32
    → verify lib public (big_endian 32 r ++ big_endian 32 s) message
      ≡ lib.ecdsa_verify public (lib.encode_dss_signature (r, s)) message
unfolding verify
verify_halves lib public message r s hr hs =
    let lr = length-big_endian 32 r in
    let ls = length-big_endian 32 s in
    let size : length (big_endian 32 r ++ big_endian 32 s) ≡ 64 =
      omega (arith, length-append (big_endian 32 r) (big_endian 32 s), lr, ls) in
    let front : take 32 (big_endian 32 r ++ big_endian 32 s) ≡ big_endian 32 r =
      subst (λ n. take n (big_endian 32 r ++ big_endian 32 s) ≡ big_endian 32 r) lr
        (take-append (big_endian 32 r) (big_endian 32 s)) in
    let back : drop 32 (big_endian 32 r ++ big_endian 32 s) ≡ big_endian 32 s =
      subst (λ n. drop n (big_endian 32 r ++ big_endian 32 s) ≡ big_endian 32 s) lr
        (drop-append (big_endian 32 r) (big_endian 32 s)) in
    rw (verify, size, front, back, from_bytes-big_endian 32 r hr, from_bytes-big_endian 32 s hs)
      refl

-- A signature whose two numbers fit in 32 bytes each is returned as 64 bytes, and those verify under
-- a key exactly as the library says of the DER signature of those numbers.
pub verify-sign :
    (lib : Ecc) (private public message : Bytes)
    → let (r, s) = lib.decode_dss_signature (lib.ecdsa_sign private message) in
      r < 256 ^ 32
      → s < 256 ^ 32
      → (signature : Bytes) × (sign lib private message ≡ some signature)
        × (length signature ≡ 64)
        × (verify lib public signature message
            ≡ lib.ecdsa_verify public (lib.encode_dss_signature (r, s)) message)
unfolding sign
verify-sign lib private public message hr hs =
    let (r, s) = lib.decode_dss_signature (lib.ecdsa_sign private message) in
    (
      big_endian 32 r ++ big_endian 32 s,
      rw (int_to_bytes_fits 32 r hr, int_to_bytes_fits 32 s hs) refl,
      omega (
        arith,
        length-append (big_endian 32 r) (big_endian 32 s),
        length-big_endian 32 r,
        length-big_endian 32 s,
      ),
      verify_halves lib public message r s hr hs,
    )

length-slice : (i : ℕ) (m : Bytes) → i + 16 ≤ length m → length (slice i m) ≡ 16
length-slice i m h = omega (arith, length-take 16 (drop i m), length-drop i m, h)

drop-drop : (n i k : ℕ) (m : Bytes) → k ≡ n + i → drop n (drop i m) ≡ drop k m
drop-drop n zero k m e = let same : k ≡ n = omega (arith, e) in rw same refl
drop-drop zero (suc i) zero [] e = refl
drop-drop (suc n) (suc i) zero [] e = refl
drop-drop zero (suc i) (suc k) [] e = refl
drop-drop (suc n) (suc i) (suc k) [] e = refl
drop-drop n (suc i) zero (x ∷ m) e = absurd (omega (arith, e))
drop-drop n (suc i) (suc k) (x ∷ m) e = drop-drop n i k m (omega (arith, e))

slice_step : (i k : ℕ) (m : Bytes) → k ≡ 16 + i → slice i m ++ drop k m ≡ drop i m
slice_step i k m e = rw⁻¹ (drop-drop 16 i k m e) (take-append-drop 16 (drop i m))

slices_join :
    (m : Bytes) → length m ≡ 64 → slice 0 m ++ (slice 16 m ++ (slice 32 m ++ slice 48 m)) ≡ m
slices_join m size =
    let last : slice 48 m ≡ drop 48 m =
      take_all 16 (drop 48 m) (omega (arith, length-drop 48 m, size)) in
    rw (last, slice_step 32 48 m refl, slice_step 16 32 m refl) (slice_step 0 16 m refl)

-- Both sides of a key agreement with a shared secret, on points of the curve and with key material of
-- 64 bytes, derive the same keys: four of sixteen bytes each, that make up the material.
pub derive_session_keys_agree :
    (lib : Ecc) (a b public_a public_b transaction_id : Bytes)
    → lib.is_point public_a ≡ true
    → lib.is_point public_b ≡ true
    → lib.exchange a public_b ≡ lib.exchange b public_a
    → length (lib.x963_kdf 64 transaction_id (lib.exchange a public_b)) ≡ 64
    → (k : SessionKeys) × (derive_session_keys lib a public_b transaction_id ≡ some k)
      × (derive_session_keys lib b public_a transaction_id ≡ some k)
      × ((length k.s_enc ≡ 16)
          × (length k.s_mac ≡ 16)
          × (length k.s_rmac ≡ 16)
          × (length k.receipt_key ≡ 16))
      × (k.s_enc ++ (k.s_mac ++ (k.s_rmac ++ k.receipt_key))
          ≡ lib.x963_kdf 64 transaction_id (lib.exchange a public_b))
unfolding derive_session_keys split_keys
derive_session_keys_agree lib a b public_a public_b tid pa pb same size =
    let m = lib.x963_kdf 64 tid (lib.exchange a public_b) in
    (
      split_keys m,
      rw pb refl,
      rw (pa, same) refl,
      (
        length-slice 0 m (omega (arith, size)),
        length-slice 16 m (omega (arith, size)),
        length-slice 32 m (omega (arith, size)),
        length-slice 48 m (omega (arith, size)),
      ),
      slices_join m size,
    )
