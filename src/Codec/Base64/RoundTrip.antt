-- ===== src/Codec/Base64/RoundTrip.antt =====
-- Every list of bytes is read back from its base64 form.
use quick_mail.Prelude.{
  ℕ, ◌/◌, ◌%◌, ◌<◌, Bool, true, false, some, List, [], ◌∷◌, ◌≡◌, refl, ap, arith, All, nat_beq,
  nat_beq_iff,
}
use quick_mail.Codec.Base64.{
  url_table, mime_table, group, sextet, base64_url_encode, Symbol, space, padding, invalid, value,
  symbol, onto_output, shifted, decode_from, base64_url_decode,
}
use quick_mail.Codec.Chars.{all_below, all_below_sound}
use quick_mail.Codec.Utf8.{IsByte}

is_value : ℕ → Symbol → Bool
is_value n (value v) = nat_beq v n
is_value n _ = false

is_value_sound : (n : ℕ) (s : Symbol) → is_value n s ≡ true → s ≡ value n
unfolding is_value
is_value_sound n (value v) h = ap value ((nat_beq_iff v n).0 h)
is_value_sound n space h = cc
is_value_sound n padding h = cc
is_value_sound n invalid h = cc

url_check : all_below 64 (λ n. is_value n (symbol (url_table n))) ≡ true
unfolding is_value symbol url_table
url_check = refl

mime_check : all_below 64 (λ n. is_value n (symbol (mime_table n))) ≡ true
unfolding is_value symbol mime_table
mime_check = refl

symbol-url_table : (n : ℕ) → n < 64 → symbol (url_table n) ≡ value n
symbol-url_table n h =
    is_value_sound n _ (all_below_sound 64 (λ n. is_value n (symbol (url_table n))) n url_check h)

pub symbol-mime_table : (n : ℕ) → n < 64 → symbol (mime_table n) ≡ value n
symbol-mime_table n h =
    is_value_sound n _ (all_below_sound 64 (λ n. is_value n (symbol (mime_table n))) n mime_check h)

-- Steps of the loop at a byte with a value: the first of a group gives no output, the others do.
decode_first :
    (acc n byte : ℕ) (input : List ℕ)
    → symbol byte ≡ value n
    → decode_from acc 0 (byte ∷ input) ≡ decode_from (shifted acc n) 6 input
unfolding decode_from
decode_first acc n byte input h = rw (decode_from, h) refl

decode_second :
    (acc n byte : ℕ) (input : List ℕ)
    → symbol byte ≡ value n
    → decode_from acc 6 (byte ∷ input)
      ≡ onto_output (shifted acc n / 16 % 256) (decode_from (shifted acc n % 16) 4 input)
unfolding decode_from
decode_second acc n byte input h = rw (decode_from, h) refl

decode_third :
    (acc n byte : ℕ) (input : List ℕ)
    → symbol byte ≡ value n
    → decode_from acc 4 (byte ∷ input)
      ≡ onto_output (shifted acc n / 4 % 256) (decode_from (shifted acc n % 4) 2 input)
unfolding decode_from
decode_third acc n byte input h = rw (decode_from, h) refl

decode_fourth :
    (acc n byte : ℕ) (input : List ℕ)
    → symbol byte ≡ value n
    → decode_from acc 2 (byte ∷ input) ≡ onto_output (shifted acc n % 256) (decode_from 0 0 input)
unfolding decode_from
decode_fourth acc n byte input h =
    let whole : shifted acc n / 1 ≡ shifted acc n = omega arith in
    let nothing : shifted acc n % 1 ≡ 0 = omega arith in rw (decode_from, h, whole, nothing) refl

-- The first two bytes of a group give the first byte, three give two, and four all three.
pub two_symbols :
    (a b c x y : ℕ) (input : List ℕ)
    → a < 256
    → b < 256
    → c < 256
    → symbol x ≡ value (sextet (group a b c) 3)
    → symbol y ≡ value (sextet (group a b c) 2)
    → decode_from 0 0 (x ∷ y ∷ input) ≡ onto_output a (decode_from (b / 16) 4 input)
two_symbols a b c x y input ha hb hc hx hy =
    let s3 = sextet (group a b c) 3 in
    let s2 = sextet (group a b c) 2 in
    let acc = shifted 0 s3 in
    let out : shifted acc s2 / 16 % 256 ≡ a = omega arith in
    let kept : shifted acc s2 % 16 ≡ b / 16 = omega arith in
    rw (decode_first 0 s3 x (y ∷ input) hx, decode_second acc s2 y input hy, out, kept) refl

pub three_symbols :
    (a b c x y z : ℕ) (input : List ℕ)
    → a < 256
    → b < 256
    → c < 256
    → symbol x ≡ value (sextet (group a b c) 3)
    → symbol y ≡ value (sextet (group a b c) 2)
    → symbol z ≡ value (sextet (group a b c) 1)
    → decode_from 0 0 (x ∷ y ∷ z ∷ input)
      ≡ onto_output a (onto_output b (decode_from (c / 64) 2 input))
three_symbols a b c x y z input ha hb hc hx hy hz =
    let s1 = sextet (group a b c) 1 in
    let out : shifted (b / 16) s1 / 4 % 256 ≡ b = omega arith in
    let kept : shifted (b / 16) s1 % 4 ≡ c / 64 = omega arith in
    rw
      (
        two_symbols a b c x y (z ∷ input) ha hb hc hx hy,
        decode_third (b / 16) s1 z input hz,
        out,
        kept,
      )
      refl

pub four_symbols :
    (a b c x y z w : ℕ) (input : List ℕ)
    → a < 256
    → b < 256
    → c < 256
    → symbol x ≡ value (sextet (group a b c) 3)
    → symbol y ≡ value (sextet (group a b c) 2)
    → symbol z ≡ value (sextet (group a b c) 1)
    → symbol w ≡ value (sextet (group a b c) 0)
    → decode_from 0 0 (x ∷ y ∷ z ∷ w ∷ input)
      ≡ onto_output a (onto_output b (onto_output c (decode_from 0 0 input)))
four_symbols a b c x y z w input ha hb hc hx hy hz hw =
    let s0 = sextet (group a b c) 0 in
    let out : shifted (c / 64) s0 % 256 ≡ c = omega arith in
    rw
      (
        three_symbols a b c x y z (w ∷ input) ha hb hc hx hy hz,
        decode_fourth (c / 64) s0 w input hw,
        out,
      )
      refl

pub sextet_lt : (n k : ℕ) → sextet n k < 64
sextet_lt n k = omega arith

-- What the provider of Gmail encodes it decodes to the same bytes, whatever their number is.
pub base64_url_decode-base64_url_encode :
    (input : List ℕ) → All IsByte input → base64_url_decode (base64_url_encode input) ≡ some input
unfolding base64_url_decode base64_url_encode decode_from
base64_url_decode-base64_url_encode [] h = refl
base64_url_decode-base64_url_encode (a ∷ []) h =
    let n = group a 0 0 in
    rw
      (two_symbols a 0 0 (url_table (sextet n 3)) (url_table (sextet n 2)) [] h.0 (omega arith)
        (omega arith) (symbol-url_table (sextet n 3) (sextet_lt n 3))
        (symbol-url_table (sextet n 2) (sextet_lt n 2)))
      refl
base64_url_decode-base64_url_encode (a ∷ b ∷ []) h =
    let n = group a b 0 in
    rw
      (three_symbols a b 0 (url_table (sextet n 3)) (url_table (sextet n 2))
        (url_table (sextet n 1)) [] h.0 h.1.0 (omega arith)
        (symbol-url_table (sextet n 3) (sextet_lt n 3))
        (symbol-url_table (sextet n 2) (sextet_lt n 2))
        (symbol-url_table (sextet n 1) (sextet_lt n 1)))
      refl
base64_url_decode-base64_url_encode (a ∷ b ∷ c ∷ input) h =
    let n = group a b c in
    rw
      (
        four_symbols a b c (url_table (sextet n 3)) (url_table (sextet n 2))
            (url_table (sextet n 1)) (url_table (sextet n 0)) (base64_url_encode input) h.0 h.1.0
            h.1.1.0 (symbol-url_table (sextet n 3) (sextet_lt n 3))
            (symbol-url_table (sextet n 2) (sextet_lt n 2))
            (symbol-url_table (sextet n 1) (sextet_lt n 1))
            (symbol-url_table (sextet n 0) (sextet_lt n 0)),
        base64_url_decode-base64_url_encode input h.1.1.1,
      )
      refl
