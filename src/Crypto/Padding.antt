-- ===== src/Crypto/Padding.antt =====
-- `_remove_padding` of app/crypto/scp03t.py against ISO/IEC 9797-1 padding method 2.
use euicc_simulator.Prelude.{
  ℕ, zero, suc, ◌+◌, ◌≡◌, refl, sym, [], ◌∷◌, ◌++◌, Bytes, arith, length, get_or, replicate,
  length-append, length-replicate, take-append, append_assoc,
}
use euicc_simulator.Crypto.Scp03t.{skip_zeros, remove_padding}

-- Method 2: a byte 0x80, then zeros.
abbrev pub pad : ℕ → Bytes → Bytes
pad k plain = plain ++ (0x80 ∷ replicate k 0)

get_or-append : (xs : Bytes) (x : ℕ) (ys : Bytes) → get_or (xs ++ x ∷ ys) (length xs) 0 ≡ x
get_or-append [] x ys = refl
get_or-append (y ∷ xs) x ys = get_or-append xs x ys

abbrev zeros : ℕ → Bytes
zeros k = replicate k 0

get_or-replicate : (i k : ℕ) → get_or (zeros k) i 0 ≡ 0
get_or-replicate i zero = refl
get_or-replicate zero (suc k) = refl
get_or-replicate (suc i) (suc k) = get_or-replicate i k

get_or_zeros : (xs : Bytes) (i k n : ℕ) → n ≡ length xs + i → get_or (xs ++ replicate k 0) n 0 ≡ 0
get_or_zeros [] i k n e = get_or-replicate n k
get_or_zeros (x ∷ xs) i k zero e = absurd (omega (arith, e))
get_or_zeros (x ∷ xs) i k (suc n) e = get_or_zeros xs i k n (omega (arith, e))

-- The loop passes over zeros down to the byte before them.
skip_zeros-pad :
    (plain : Bytes) (j k n : ℕ)
    → n ≡ suc (length plain + j)
    → skip_zeros n (pad k plain) ≡ suc (length plain)
unfolding skip_zeros
skip_zeros-pad plain j k zero e = absurd (omega (arith, e))
skip_zeros-pad plain zero k (suc i) e =
    let here : i ≡ length plain = omega (arith, e) in
    rw (here, get_or-append plain 0x80 (replicate k 0)) refl
skip_zeros-pad plain (suc j) k (suc i) e =
    let here : i ≡ length (plain ++ 0x80 ∷ []) + j =
      omega (arith, e, length-append plain (0x80 ∷ [])) in
    let null : get_or (pad k plain) i 0 ≡ 0 =
      rw (sym (append_assoc plain (0x80 ∷ []) (replicate k 0)))
        (get_or_zeros (plain ++ 0x80 ∷ []) j k i here) in
    rw null (skip_zeros-pad plain j k i (omega (arith, e)))

-- What method 2 pads, `_remove_padding` gives back, whatever the data and the number of zeros.
pub remove_padding-pad : (plain : Bytes) (k : ℕ) → remove_padding (pad k plain) ≡ plain
unfolding remove_padding
remove_padding-pad plain k =
    let size : length (pad k plain) ≡ length plain + 1 + k =
      omega (arith, length-append plain (0x80 ∷ replicate k 0), length-replicate {A = ℕ} k 0) in
    rw
      (
        skip_zeros-pad plain k k (length (pad k plain)) (omega (arith, size)),
        get_or-append plain 0x80 (replicate k 0),
      )
      (take-append plain (0x80 ∷ replicate k 0))
