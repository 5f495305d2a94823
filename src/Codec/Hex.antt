-- ===== src/Codec/Hex.antt =====
-- `encode_hex`, `decode_hex` and `hex` of crates/quickmaild/src/providers/imap_smtp.rs.
use Prim.Native.Char.{Char, code}
use quick_mail.Prelude.{
  ℕ, ◌+◌, ◌-◌, ◌*◌, ◌/◌, ◌%◌, ◌<◌, String, Bool, true, false, ◌&&◌, Option, none, some, List, [],
  ◌∷◌, ◌≡◌, refl, ap, subst, ◌∙◌, arith, inl, inr, All, not, Option-cases, leb, nat_beq,
  nat_beq_iff, if◌then◌else◌,
}
use quick_mail.Codec.Chars.{all_below, all_below_sound, nth_char}
use mathlib.Core.Bool.{false≢true}
use quick_mail.Codec.Split.{is_colon, no_colon}
use quick_mail.Codec.Utf8.{IsByte, as_bytes, from_utf8}
use quick_mail.Codec.Utf8.RoundTrip.{as_bytes-IsByte, from_utf8-as_bytes}

-- `HEX[n] as char`.
unfoldable pub hex_digit : ℕ → Char
hex_digit n = nth_char "0123456789abcdef" n

-- `byte >> 4` and `byte & 0xf`.
unfoldable pub encode_hex : List ℕ → String
unfolding hex_digit
encode_hex [] = ""
encode_hex (byte ∷ input) =
    String.◌∷◌ (hex_digit (byte / 16)) (String.◌∷◌ (hex_digit (byte % 16)) (encode_hex input))

unfoldable pub hex : Char → Option ℕ
hex c =
    let byte = code c in
    if leb b'0' byte && leb byte b'9'
    then some (byte - b'0')
    else if leb b'a' byte && leb byte b'f'
    then some (byte - b'a' + 10)
    else if leb b'A' byte && leb byte b'F'
    then some (byte - b'A' + 10)
    else none

-- `hex(pair[0])? << 4 | hex(pair[1])?`.
unfoldable pub hex_pair : Char → Char → Option ℕ
unfolding hex
hex_pair c d = elim (hex c) [
  | none ↦ none
  | some high ↦ elim (hex d) [ none ↦ none | some low ↦ some (high * 16 + low) ]
]

abbrev pub cons_option : Option ℕ → Option (List ℕ) → Option (List ℕ)
cons_option (some a) (some as_) = some (a ∷ as_)
cons_option _ _ = none

-- The bytes that pairs of digits spell; a text of odd length spells none.
unfoldable pub hex_bytes : String → Option (List ℕ)
unfolding hex_pair
hex_bytes String.[] = some []
hex_bytes (String.◌∷◌ c String.[]) = none
hex_bytes (String.◌∷◌ c (String.◌∷◌ d s)) = cons_option (hex_pair c d) (hex_bytes s)

-- A character beyond ASCII is no digit, so that the length in bytes and the number of characters
-- refuse the same texts.
unfoldable pub decode_hex : String → Option String
unfolding hex_bytes
decode_hex input = elim (hex_bytes input) [ none ↦ none | some bytes ↦ from_utf8 bytes ]

is_byte_pair : ℕ → Bool
is_byte_pair byte = elim (hex_pair (hex_digit (byte / 16)) (hex_digit (byte % 16))) [
  | none ↦ false
  | some n ↦ nat_beq n byte
]

pair_table : all_below 256 is_byte_pair ≡ true
unfolding is_byte_pair hex_pair hex_digit
pair_table = refl

hex_pair-hex_digit :
    (byte : ℕ) → byte < 256 → hex_pair (hex_digit (byte / 16)) (hex_digit (byte % 16)) ≡ some byte
unfolding is_byte_pair
hex_pair-hex_digit byte h =
    elim (Option-cases (hex_pair (hex_digit (byte / 16)) (hex_digit (byte % 16)))) [
      | inl e ↦ absurd (
          false≢true (
            subst (λ o. elim o [ none ↦ false | some n ↦ nat_beq n byte ] ≡ true) e
              (all_below_sound 256 is_byte_pair byte pair_table h)))
      | inr (n, e) ↦
          e
          ∙ ap some (
              (nat_beq_iff n byte).0 (
                subst (λ o. elim o [ none ↦ false | some n ↦ nat_beq n byte ] ≡ true) e
                  (all_below_sound 256 is_byte_pair byte pair_table h)))
    ]

pub hex_bytes-encode_hex :
    (input : List ℕ) → All IsByte input → hex_bytes (encode_hex input) ≡ some input
unfolding hex_bytes encode_hex
hex_bytes-encode_hex [] h = refl
hex_bytes-encode_hex (byte ∷ input) h =
    rw (hex_pair-hex_digit byte h.0, hex_bytes-encode_hex input h.1) refl

-- Every text is read back from the hexadecimal form of its bytes.
pub decode_hex-encode_hex : (s : String) → decode_hex (encode_hex (as_bytes s)) ≡ some s
unfolding decode_hex
decode_hex-encode_hex s =
    rw (decode_hex, hex_bytes-encode_hex (as_bytes s) (as_bytes-IsByte s)) (from_utf8-as_bytes s)

colon_table : all_below 16 (λ n. not (is_colon (hex_digit n))) ≡ true
unfolding hex_digit
colon_table = refl

hex_digit-no_colon : (n : ℕ) → n < 16 → not (is_colon (hex_digit n)) ≡ true
hex_digit-no_colon n h = all_below_sound 16 (λ n. not (is_colon (hex_digit n))) n colon_table h

pub no_colon-encode_hex : (input : List ℕ) → All IsByte input → no_colon (encode_hex input) ≡ true
unfolding no_colon encode_hex
no_colon-encode_hex [] h = refl
no_colon-encode_hex (byte ∷ input) h =
    rw (hex_digit-no_colon (byte / 16) (omega arith), hex_digit-no_colon (byte % 16) (omega arith))
      (no_colon-encode_hex input h.1)
