-- ===== src/Database/Versions.antt =====
-- `_parse_version` and `_format_version` of app/models/database.py.
use euicc_simulator.Prelude.{
  ℕ, zero, suc, ◌+◌, ◌-◌, ◌*◌, ◌/◌, ◌%◌, ◌≤◌, ◌<◌, ◌≡◌, inl, inr, refl, ap, ◌∙◌, true, false, some,
  [], ◌∷◌, ◌++◌, Text, arith, ltb, leb, ◌==◌, ◌&&◌, Bool-cases, length, length-append,
}
use euicc_simulator.Euicc.{Version}
use euicc_simulator.Manager.Iccid.{Digits}
use euicc_simulator.Database.{
  decimal_digits, decimal, format_version, split_dots, int_from, int_of, parse_version,
}

-- The number that digits stand for, behind those that make `acc`.
abbrev value : ℕ → Text → ℕ
value acc [] = acc
value acc (c ∷ cs) = value (acc * 10 + (c - 48)) cs

int_from-Digits : (acc : ℕ) (s : Text) → Digits s → int_from acc s ≡ some (value acc s)
int_from-Digits acc [] d = refl
int_from-Digits acc (c ∷ s) (a, b, d) =
    let in_range : (leb b'0' c && leb c b'9') ≡ true = ground arith in
    rw (in_range, int_from-Digits (acc * 10 + (c - 48)) s d) refl

value-append : (acc : ℕ) (s : Text) (c : ℕ) → value acc (s ++ c ∷ []) ≡ value acc s * 10 + (c - 48)
value-append acc [] c = refl
value-append acc (d ∷ s) c = value-append (acc * 10 + (d - 48)) s c

Digits-append : (s : Text) (c : ℕ) → Digits s → 48 ≤ c → c ≤ 57 → Digits (s ++ c ∷ [])
Digits-append [] c d lo hi = (lo, hi, tt)
Digits-append (x ∷ s) c (a, b, d) lo hi = (a, b, Digits-append s c d lo hi)

-- A number is printed in digits that stand for it, if the fuel is above it.
decimal_digits-value :
    (fuel n : ℕ)
    → n < fuel
    → Digits (decimal_digits fuel n)
      × (value 0 (decimal_digits fuel n) ≡ n)
      × (1 ≤ length (decimal_digits fuel n))
decimal_digits-value zero n h = absurd (omega (arith, h))
decimal_digits-value (suc fuel) n h = elim (Bool-cases (ltb n 10)) [
  | inl small ↦
      rw small
        ((ground (arith, small), ground (arith, small), tt), ground (arith, small), omega arith)
  | inr large ↦
      let ten : 10 ≤ n = ground (arith, large) in
      let (digits, stands, some_digit) =
        decimal_digits-value fuel (n / 10) (omega (arith, h, ten)) in
      let ds = decimal_digits fuel (n / 10) in
      let c = 48 + n % 10 in
      rw large (
        Digits-append ds c digits (omega arith) (omega arith),
        omega (arith, stands, value-append 0 ds c),
        omega (arith, length-append ds (c ∷ [])),
      )
]

int_of-Digits : (s : Text) → Digits s → 1 ≤ length s → int_of s ≡ some (value 0 s)
int_of-Digits [] d h = absurd (omega (arith, h))
int_of-Digits (c ∷ s) d h = int_from-Digits 0 (c ∷ s) d

decimal-Digits : (n : ℕ) → Digits (decimal n)
decimal-Digits n = (decimal_digits-value (n + 1) n (omega arith)).0

int_of-decimal : (n : ℕ) → int_of (decimal n) ≡ some n
int_of-decimal n =
    let (digits, stands, size) = decimal_digits-value (n + 1) n (omega arith) in
    int_of-Digits (decimal n) digits size ∙ ap (λ v. some v) stands

-- Digits are one part, up to the dot or the end.
split_dots-Digits : (s : Text) → Digits s → split_dots s ≡ s ∷ []
unfolding split_dots
split_dots-Digits [] d = refl
split_dots-Digits (c ∷ s) (a, b, d) =
    let no_dot : (c == b'.') ≡ false = ground arith in rw (no_dot, split_dots-Digits s d) refl

split_dots-append : (s t : Text) → Digits s → split_dots (s ++ (b'.' ∷ t)) ≡ s ∷ split_dots t
unfolding split_dots
split_dots-append [] t d = refl
split_dots-append (c ∷ s) t (a, b, d) =
    let no_dot : (c == b'.') ≡ false = ground arith in rw (no_dot, split_dots-append s t d) refl

-- What `_format_version` writes, `_parse_version` reads.
pub parse_version-format_version : (v : Version) → parse_version (format_version v) ≡ some v
unfolding parse_version format_version
parse_version-format_version (a, b, c) =
    rw
      (
        split_dots-append (decimal a) (decimal b ++ (b'.' ∷ decimal c)) (decimal-Digits a),
        split_dots-append (decimal b) (decimal c) (decimal-Digits b),
        split_dots-Digits (decimal c) (decimal-Digits c),
        int_of-decimal a,
        int_of-decimal b,
        int_of-decimal c,
      )
      refl
