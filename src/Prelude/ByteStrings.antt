-- ===== src/Prelude/ByteStrings.antt =====
-- Python's `bytes` and `str`, both as lists of numbers: byte values and code points.
-- Truth of an optional value, equality, prefixes, and the hexadecimal conversions.
use Prim.Native.Nat.{ℕ, ◌+◌, ◌-◌, ◌*◌, ◌/◌, ◌%◌}
use Prim.Native.Char.{code}
use Prim.Native.String.{String}
use mathlib.Core.Path.{◌≡◌, refl}
use mathlib.Core.Logic.{◌↔◌}
use mathlib.Core.List.{List, [], ◌∷◌}
use mathlib.Core.Option.{Option, none, some}
use mathlib.Core.Bool.{Bool, true, false, ◌&&◌, ◌||◌}
use native.Mathlib.Omega.{arith}
use euicc_simulator.Prelude.Tests.{ltb, leb, ◌==◌, if◌then◌else◌, ==_refl}

abbrev pub Bytes : Type 0
Bytes = List ℕ

abbrev pub Text : Type 0
Text = List ℕ

-- The code points of a literal.
abbrev pub codes : String → Text
codes String.[] = []
codes (String.◌∷◌ c s) = code c ∷ codes s

-- `a == b` on bytes and on strings.
unfoldable pub bytes_eq : List ℕ → List ℕ → Bool
bytes_eq [] [] = true
bytes_eq [] (b ∷ bs) = false
bytes_eq (a ∷ as') [] = false
bytes_eq (a ∷ as') (b ∷ bs) = a == b && bytes_eq as' bs

-- `x in xs`, of byte strings.
unfoldable pub is_in : Bytes → List Bytes → Bool
is_in x [] = false
is_in x (y ∷ ys) = bytes_eq y x || is_in x ys

pub bytes_eq_refl : (a : List ℕ) → bytes_eq a a ≡ true
unfolding bytes_eq
bytes_eq_refl [] = refl
bytes_eq_refl (x ∷ xs) = rw (==_refl x) (bytes_eq_refl xs)

pub bytes_eq→eq : (a b : List ℕ) → bytes_eq a b ≡ true → a ≡ b
unfolding bytes_eq
bytes_eq→eq [] [] h = refl
bytes_eq→eq [] (b ∷ bs) h = cc
bytes_eq→eq (a ∷ xs) [] h = cc
bytes_eq→eq (a ∷ xs) (b ∷ bs) h = ground (arith, bytes_eq→eq xs bs)

pub bytes_eq_iff : (a b : List ℕ) → (bytes_eq a b ≡ true) ↔ (a ≡ b)
bytes_eq_iff a b = (bytes_eq→eq a b, λ e. rw e (bytes_eq_refl b))

-- `bool(b)` of bytes, of a string, and of one that may be `None`.
abbrev pub truthy : List ℕ → Bool
truthy [] = false
truthy (x ∷ xs) = true

abbrev pub given : Option (List ℕ) → Bool
given none = false
given (some b) = truthy b

-- `d.get(key, default)` on an optional field.
abbrev pub default {ℓ} : {A : Type ℓ} → Option A → A → A
default none d = d
default (some a) d = a

-- `b.startswith(prefix)`.
unfoldable pub starts_with : List ℕ → List ℕ → Bool
starts_with b [] = true
starts_with [] (p ∷ ps) = false
starts_with (x ∷ b) (p ∷ ps) = x == p && starts_with b ps

-- A hexadecimal digit of `bytes.hex()`, which is lower case.
unfoldable pub hex_digit : ℕ → ℕ
hex_digit n = if ltb n 10 then 48 + n else 87 + n

unfoldable pub hex : Bytes → Text
unfolding hex_digit
hex [] = []
hex (b ∷ bs) = hex_digit (b / 16) ∷ hex_digit (b % 16) ∷ hex bs

-- `int(c, 16)` of one digit.
unfoldable pub hex_value : ℕ → Option ℕ
hex_value c =
    if leb 48 c && leb c 57
    then some (c - 48)
    else if leb 97 c && leb c 102
    then some (c - 87)
    else if leb 65 c && leb c 70
    then some (c - 55)
    else none

-- The white space that `bytes.fromhex` passes over between bytes.
unfoldable pub is_space : ℕ → Bool
is_space c = c == 32 || (leb 9 c && leb c 13)

-- One byte from the values of its digits.
abbrev pub hex_byte : Option ℕ → Option ℕ → Option Bytes → Option Bytes
hex_byte (some h) (some l) (some rest) = some ((h * 16 + l) ∷ rest)
hex_byte (some h) (some l) none = none
hex_byte (some h) none rest = none
hex_byte none l rest = none

-- `bytes.fromhex`; `none` is its ValueError.
unfoldable pub fromhex : Text → Option Bytes
unfolding hex_value is_space
fromhex [] = some []
fromhex (c ∷ []) = if is_space c then some [] else none
fromhex (c ∷ d ∷ r) =
    let skip = fromhex (d ∷ r) in
    let pair = hex_byte (hex_value c) (hex_value d) (fromhex r) in if is_space c then skip else pair

-- `bool(flags & m)` for a mask `m` of one bit.
abbrev pub has_bit : ℕ → ℕ → Bool
has_bit flags m = flags / m % 2 == 1

pub bytes_eq_sym : (a b : List ℕ) → bytes_eq a b ≡ bytes_eq b a
unfolding bytes_eq
bytes_eq_sym [] [] = refl
bytes_eq_sym [] (b ∷ bs) = refl
bytes_eq_sym (a ∷ xs) [] = refl
bytes_eq_sym (a ∷ xs) (b ∷ bs) = ground (arith, bytes_eq_sym xs bs)
