-- ===== src/Codec/Base64.antt =====
-- base64 of crates/quickmaild/src/providers: `base64_url_encode` and `base64_url_decode` of gmail.rs,
-- `wrap_base64` and `decode_base64` of mime.rs. The encoded texts are ASCII and stand as their bytes.
pub mod RoundTrip
pub mod Lines
use Prim.Native.Char.{code}
use quick_mail.Prelude.{
  ℕ, zero, suc, ◌+◌, ◌-◌, ◌*◌, ◌/◌, ◌%◌, ◌^◌, String, Bool, true, false, not, ◌&&◌, ◌||◌, Option,
  none, some, List, [], ◌∷◌, ◌≡◌, refl, ltb, leb, nat_beq, if◌then◌else◌,
}
use quick_mail.Codec.Chars.{nth_char}

-- `TABLE[n]`.
unfoldable pub url_table : ℕ → ℕ
url_table n = code (nth_char "ABCDEFGHIJKLMNOPQRSTUVWXYZabcdefghijklmnopqrstuvwxyz0123456789-_" n)

unfoldable pub mime_table : ℕ → ℕ
mime_table n = code (nth_char "ABCDEFGHIJKLMNOPQRSTUVWXYZabcdefghijklmnopqrstuvwxyz0123456789+/" n)

-- `(chunk[0] << 16) | (chunk[1] << 8) | chunk[2]`, with 0 for what is missing.
abbrev pub group : ℕ → ℕ → ℕ → ℕ
group a b c = a * 65536 + b * 256 + c

-- `(value >> 6 * k) & 63`.
abbrev pub sextet : ℕ → ℕ → ℕ
sextet value k = value / 2 ^ (6 * k) % 64

unfoldable pub base64_url_encode : List ℕ → List ℕ
unfolding url_table
base64_url_encode [] = []
base64_url_encode (a ∷ []) =
    let value = group a 0 0 in url_table (sextet value 3) ∷ url_table (sextet value 2) ∷ []
base64_url_encode (a ∷ b ∷ []) =
    let value = group a b 0 in
    url_table (sextet value 3) ∷ url_table (sextet value 2) ∷ url_table (sextet value 1) ∷ []
base64_url_encode (a ∷ b ∷ c ∷ input) =
    let value = group a b c in
    url_table (sextet value 3)
    ∷ url_table (sextet value 2)
    ∷ url_table (sextet value 1)
    ∷ url_table (sextet value 0)
    ∷ base64_url_encode input

-- The first loop of `wrap_base64`: groups of four, filled up with `=`.
unfoldable pub padded_base64 : List ℕ → List ℕ
unfolding mime_table
padded_base64 [] = []
padded_base64 (a ∷ []) =
    let value = group a 0 0 in
    mime_table (sextet value 3) ∷ mime_table (sextet value 2) ∷ b'=' ∷ b'=' ∷ []
padded_base64 (a ∷ b ∷ []) =
    let value = group a b 0 in
    mime_table (sextet value 3)
    ∷ mime_table (sextet value 2)
    ∷ mime_table (sextet value 1)
    ∷ b'='
    ∷ []
padded_base64 (a ∷ b ∷ c ∷ input) =
    let value = group a b c in
    mime_table (sextet value 3)
    ∷ mime_table (sextet value 2)
    ∷ mime_table (sextet value 1)
    ∷ mime_table (sextet value 0)
    ∷ padded_base64 input

-- The second loop: CRLF after every 76 bytes, and after the rest. `room` is what the line still takes.
unfoldable pub break_lines : ℕ → List ℕ → List ℕ
break_lines room [] = if nat_beq room 76 then [] else 13 ∷ 10 ∷ []
break_lines zero (c ∷ text) = 13 ∷ 10 ∷ c ∷ break_lines 75 text
break_lines (suc zero) (c ∷ text) = c ∷ 13 ∷ 10 ∷ break_lines 76 text
break_lines (suc (suc room)) (c ∷ text) = c ∷ break_lines (suc room) text

unfoldable pub wrap_base64 : List ℕ → List ℕ
unfolding padded_base64 break_lines
wrap_base64 input = break_lines 76 (padded_base64 input)

-- What a byte of an encoded text says.
pub data Symbol : Type 0 where
  space padding invalid : Symbol
  value : ℕ → Symbol

-- `u8::is_ascii_whitespace`, and the table read backwards.
unfoldable pub symbol : ℕ → Symbol
symbol byte =
    if nat_beq byte 9
      || (nat_beq byte 10 || (nat_beq byte 12 || (nat_beq byte 13 || nat_beq byte 32)))
    then space
    else if nat_beq byte b'='
    then padding
    else if leb b'A' byte && leb byte b'Z'
    then value (byte - b'A')
    else if leb b'a' byte && leb byte b'z'
    then value (byte - b'a' + 26)
    else if leb b'0' byte && leb byte b'9'
    then value (byte - b'0' + 52)
    else if nat_beq byte b'+' || nat_beq byte b'-'
    then value 62
    else if nat_beq byte b'/' || nat_beq byte b'_'
    then value 63
    else invalid

abbrev pub onto_output : ℕ → Option (List ℕ) → Option (List ℕ)
onto_output byte none = none
onto_output byte (some output) = some (byte ∷ output)

-- `(accumulator << 6) | value`, a u32.
abbrev pub shifted : ℕ → ℕ → ℕ
shifted accumulator v = accumulator * 64 % 2 ^ 32 + v

-- One round of the loop of both decoders, `next` with the accumulator and its number of bits being
-- the rounds to come; `none` stands for the error `InvalidBase64` of the one or the other.
abbrev pub on_symbol : Symbol → ℕ → ℕ → (ℕ → ℕ → Option (List ℕ)) → Option (List ℕ)
on_symbol space accumulator bits next = next accumulator bits
on_symbol padding accumulator bits next = some []
on_symbol invalid accumulator bits next = none
on_symbol (value v) accumulator bits next =
    let acc = shifted accumulator v in
    elim (leb 8 (bits + 6)) [
      | true ↦
          onto_output (acc / 2 ^ (bits + 6 - 8) % 256)
            (next (acc % 2 ^ (bits + 6 - 8)) (bits + 6 - 8))
      | false ↦ next acc (bits + 6)
    ]

unfoldable pub decode_from : ℕ → ℕ → List ℕ → Option (List ℕ)
unfolding symbol
decode_from accumulator bits [] = some []
decode_from accumulator bits (byte ∷ input) =
    on_symbol (symbol byte) accumulator bits (λ acc left. decode_from acc left input)

unfoldable pub base64_url_decode : List ℕ → Option (List ℕ)
unfolding decode_from
base64_url_decode input = decode_from 0 0 input

unfoldable pub decode_base64 : List ℕ → Option (List ℕ)
unfolding decode_from
decode_base64 input = decode_from 0 0 input
