-- ===== src/Codec/Utf8.antt =====
-- `str::as_bytes` and `String::from_utf8` of the standard library.
pub mod RoundTrip
use Prim.Native.Nat.{Ordering, compare}
use Prim.Native.Char.{Char, char, code, IsLt, IsScalar}
use quick_mail.Prelude.{
  ℕ, zero, suc, ◌+◌, ◌-◌, ◌*◌, ◌/◌, ◌%◌, ◌<◌, ◌≤◌, String, Bool, true, false, ◌||◌, Option, none,
  some, List, [], ◌∷◌, ◌++◌, ◌≡◌, refl, All, arith, ◌∙◌, inl, inr, Bool-cases, ltb→lt, lt→ltb,
  le→ltb-false, lt→leb-false, ltb, leb, if◌then◌else◌,
}

abbrev pub IsByte : ℕ → Type 0
IsByte b = b < 256

-- The bytes of one code point.
unfoldable pub utf8_bytes : ℕ → List ℕ
utf8_bytes n =
    if ltb n 0x80
    then n ∷ []
    else if ltb n 0x800
    then (0xc0 + n / 64) ∷ (0x80 + n % 64) ∷ []
    else if ltb n 0x10000
    then (0xe0 + n / 4096) ∷ (0x80 + n / 64 % 64) ∷ (0x80 + n % 64) ∷ []
    else (0xf0 + n / 262144) ∷ (0x80 + n / 4096 % 64) ∷ (0x80 + n / 64 % 64) ∷ (0x80 + n % 64) ∷ []

unfoldable pub as_bytes : String → List ℕ
unfolding utf8_bytes
as_bytes String.[] = []
as_bytes (String.◌∷◌ c s) = utf8_bytes (code c) ++ as_bytes s

-- The comparisons that make a number a character, as a type.
abbrev Both : Ordering → Ordering → Type 0
Both Ordering.lt q = IsLt q
Both _ _ = ⊥

abbrev Scalar : Ordering → Ordering → Ordering → Type 0
Scalar Ordering.lt p q = Unit
Scalar _ p q = Both p q

char_if : (o p q : Ordering) → (Scalar o p q → Char) → Option Char
char_if Ordering.lt p q f = some (f tt)
char_if Ordering.eq Ordering.lt Ordering.lt f = some (f tt)
char_if Ordering.gt Ordering.lt Ordering.lt f = some (f tt)
char_if _ _ _ f = none

-- Surrogates and numbers from 0x110000 on are no characters.
to_char : ℕ → Option Char
unfolding char_if
to_char n = char_if (compare n 55296) (compare 57343 n) (compare n 1114112) (char n)

push : ℕ → Option String → Option String
unfolding to_char
push n rest = elim (to_char n) [
  | none ↦ none
  | some c ↦ elim rest [ none ↦ none | some s ↦ some (String.◌∷◌ c s) ]
]

-- How many bytes follow a leading byte, the bits that it gives, and the least code point that
-- needs so many bytes.
abbrev followers : ℕ → ℕ
followers a = if ltb a 0x80 then 0 else if ltb a 0xe0 then 1 else if ltb a 0xf0 then 2 else 3

abbrev leading_bits : ℕ → ℕ
leading_bits a =
    if ltb a 0x80
    then 0
    else if ltb a 0xe0
    then a - 0xc0
    else if ltb a 0xf0
    then a - 0xe0
    else a - 0xf0

abbrev least_code : ℕ → ℕ
least_code a =
    if ltb a 0x80 then 0 else if ltb a 0xe0 then 0x80 else if ltb a 0xf0 then 0x800 else 0x10000

-- `decode need bits least`: `need` bytes of the current character are still to come.
decode : ℕ → ℕ → ℕ → List ℕ → Option String
unfolding push
decode zero bits least [] = some ""
decode zero bits least (a ∷ s) =
    let rest = decode (followers a) (leading_bits a) (least_code a) s in
    if ltb a 0x80 then push a rest else if ltb a 0xc0 || leb 0xf8 a then none else rest
decode (suc need) bits least [] = none
decode (suc need) bits least (a ∷ s) =
    let n = bits * 64 + (a - 0x80) in
    let rest = decode need n least s in
    if ltb a 0x80 || leb 0xc0 a
    then none
    else if ltb 0 need
    then rest
    else if ltb n least
    then none
    else push n rest

unfoldable pub from_utf8 : List ℕ → Option String
unfolding decode
from_utf8 = decode 0 0 0

umlaut : from_utf8 (as_bytes "aäΩ€😀") ≡ some "aäΩ€😀"
unfolding from_utf8 as_bytes
umlaut = refl

-- An overlong form, a surrogate, and a character cut short.
refused :
    (from_utf8 (0xc0 ∷ 0x80 ∷ []) ≡ none)
    × (from_utf8 (0xed ∷ 0xa0 ∷ 0x80 ∷ []) ≡ none)
    × (from_utf8 (0xe2 ∷ 0x82 ∷ []) ≡ none)
unfolding from_utf8
refused = (refl, refl, refl)
