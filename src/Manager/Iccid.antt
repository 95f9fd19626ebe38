-- ===== src/Manager/Iccid.antt =====
-- `_string_to_bcd_iccid` of app/services/euicc_manager.py against `iccid_string` of
-- app/models/euicc.py.
use euicc_simulator.Prelude.{
  ℕ, zero, suc, ◌+◌, ◌-◌, ◌*◌, ◌/◌, ◌%◌, ◌≤◌, ◌<◌, ◌≡◌, refl, ap, ◌∙◌, some, [], ◌∷◌, ◌++◌, Bytes,
  Text, arith, leb, hex, hex_digit, hex_value, length, replicate, length-append, ◌==◌, ◌&&◌,
  if◌then◌else◌, ◌⊎◌, length-replicate, inl, inr,
}
use euicc_simulator.Euicc.{ProfileSlot, swap_pairs, strip_head, rstrip, upper, iccid_string}
use euicc_simulator.Manager.{bcd_pairs, string_to_bcd_iccid, ljust}

-- Decimal digits.
abbrev pub Digits : Text → Type 0
Digits [] = Unit {0}
Digits (c ∷ cs) = (48 ≤ c) × (c ≤ 57) × Digits cs

-- What a padded ICCID holds: digits and the letter that pads.
abbrev IsPadded : ℕ → Type 0
IsPadded c = ((48 ≤ c) × (c ≤ 57)) ⊎ (c ≡ b'F')

abbrev Padded : Text → Type 0
Padded [] = Unit {0}
Padded (c ∷ cs) = IsPadded c × Padded cs

abbrev lower_f : ℕ → ℕ
lower_f c = if c == b'F' then b'f' else c

abbrev lowered : Text → Text
lowered [] = []
lowered (c ∷ cs) = lower_f c ∷ lowered cs

-- A character's value, and the digit that `hex` writes for it.
hex_value-Padded :
    (c : ℕ) → IsPadded c → (v : ℕ) × (hex_value c ≡ some v) × (v < 16) × (hex_digit v ≡ lower_f c)
unfolding hex_value hex_digit
hex_value-Padded c (inl d) = (c - 48, ground arith, ground arith, ground arith)
hex_value-Padded c (inr f) = (15, ground arith, omega arith, ground arith)

hex-bcd :
    (h l : ℕ) (rest : Bytes)
    → l < 16
    → h < 16
    → hex ((l * 16 + h) ∷ rest) ≡ hex_digit l ∷ hex_digit h ∷ hex rest
unfolding hex
hex-bcd h l rest a b =
    let high : (l * 16 + h) / 16 ≡ l = omega arith in
    let low : (l * 16 + h) % 16 ≡ h = omega arith in rw (high, low) refl

-- Pair by pair, the bytes print as the text with its letters in lower case.
bcd_pairs-Padded :
    (k : ℕ) (t : Text)
    → length t ≡ k + k
    → Padded t
    → (b : Bytes) × (bcd_pairs t ≡ some b) × (swap_pairs (hex b) ≡ lowered t) × (length b ≡ k)
unfolding bcd_pairs swap_pairs
bcd_pairs-Padded zero [] e p = ([], refl, unfold hex in refl, refl)
bcd_pairs-Padded zero (c ∷ t) e p = absurd (omega (arith, e))
bcd_pairs-Padded (suc k) [] e p = absurd (omega (arith, e))
bcd_pairs-Padded (suc k) (c ∷ []) e p = absurd (omega (arith, e))
bcd_pairs-Padded (suc k) (c ∷ d ∷ t) e (pc, (pd, pt)) =
    let (h, vh, bh, dh) = hex_value-Padded c pc in
    let (l, vl, bl, dl) = hex_value-Padded d pd in
    let (b, made, printed, size) = bcd_pairs-Padded k t (omega (arith, e)) pt in
    (
      (l * 16 + h) ∷ b,
      rw (vl, vh, made) refl,
      rw (hex-bcd h l b bl bh, dh, dl, printed) refl,
      omega (arith, size),
    )

Padded-replicate : (k : ℕ) → Padded (replicate k b'F')
Padded-replicate zero = tt
Padded-replicate (suc k) = (inr refl, Padded-replicate k)

Padded-append : (s t : Text) → Digits s → Padded t → Padded (s ++ t)
Padded-append [] t d p = p
Padded-append (c ∷ s) t (a, b, d) p = (inl (a, b), Padded-append s t d p)

lowered-append :
    (s : Text) (k : ℕ) → Digits s → lowered (s ++ replicate k b'F') ≡ s ++ replicate k b'f'
lowered-append [] zero d = refl
lowered-append [] (suc k) d = ap (λ cs. b'f' ∷ cs) (lowered-append [] k tt)
lowered-append (c ∷ s) k (a, b, d) =
    let same : lower_f c ≡ c = ground arith in rw (same, lowered-append s k d) refl

rstrip-replicate : (k : ℕ) → rstrip b'f' (replicate k b'f') ≡ []
unfolding rstrip
rstrip-replicate zero = refl
rstrip-replicate (suc k) = rw (rstrip-replicate k) refl

strip_head-digit : (c : ℕ) (s : Text) → c ≤ 57 → strip_head b'f' c s ≡ c ∷ s
strip_head-digit c [] b = ground arith
strip_head-digit c (d ∷ s) b = refl

-- Stripping the padding leaves the digits.
rstrip-append : (s : Text) (k : ℕ) → Digits s → rstrip b'f' (s ++ replicate k b'f') ≡ s
unfolding rstrip
rstrip-append [] k d = rstrip-replicate k
rstrip-append (c ∷ s) k (a, b, d) = rw (rstrip-append s k d) (strip_head-digit c s b)

upper-Digits : (s : Text) → Digits s → upper s ≡ s
unfolding upper
upper-Digits [] d = refl
upper-Digits (c ∷ s) (a, b, d) =
    let same : (if leb b'a' c && leb c b'z' then c - 32 else c) ≡ c = ground arith in
    rw (same, upper-Digits s d) refl

-- An ICCID of at most 20 decimal digits is encoded in exactly ten bytes, and a profile that holds
-- those bytes shows the same digits as its ICCID.
pub iccid_string-string_to_bcd_iccid :
    (s : Text) (p : ProfileSlot)
    → Digits s
    → length s ≤ 20
    → (b : Bytes) × (string_to_bcd_iccid s ≡ some b)
      × (length b ≡ 10)
      × (iccid_string (record p { iccid = b }) ≡ s)
unfolding string_to_bcd_iccid iccid_string
iccid_string-string_to_bcd_iccid s p d short =
    let k = 20 - length s in
    let all : Padded (ljust 20 b'F' s) = Padded-append s _ d (Padded-replicate k) in
    let size : length (ljust 20 b'F' s) ≡ 10 + 10 =
      length-append s (replicate k b'F') ∙ (omega (arith, length-replicate {A = ℕ} k b'F')) in
    let (b, made, printed, ten) = bcd_pairs-Padded 10 _ size all in
    (b, made, ten, rw (printed, lowered-append s k d, rstrip-append s k d, upper-Digits s d) refl)
