-- ===== src/Codec/Utf8/RoundTrip.antt =====
-- Every text is read back from its bytes.
use Prim.Native.Nat.{Ordering, compare}
use Prim.Native.Char.{Char, char, code}
use quick_mail.Prelude.{
  ℕ, suc, ◌+◌, ◌-◌, ◌*◌, ◌/◌, ◌%◌, ◌<◌, ◌≤◌, String, some, List, [], ◌∷◌, ◌++◌, ◌≡◌, refl, All,
  arith, ◌∙◌, inl, inr, Bool-cases, ltb→lt, lt→ltb, le→ltb-false, lt→leb-false, ltb,
}
use quick_mail.Codec.Utf8.{
  IsByte, utf8_bytes, as_bytes, Scalar, char_if, to_char, push, followers, leading_bits, least_code,
  decode, from_utf8,
}

char_if-some :
    (o p q : Ordering) (f : Scalar o p q → Char) (x : Scalar o p q) → char_if o p q f ≡ some (f x)
unfolding char_if
char_if-some Ordering.lt p q f x = refl
char_if-some Ordering.eq Ordering.lt Ordering.lt f x = refl
char_if-some Ordering.gt Ordering.lt Ordering.lt f x = refl
char_if-some Ordering.eq Ordering.lt Ordering.eq f x = absurd x
char_if-some Ordering.eq Ordering.lt Ordering.gt f x = absurd x
char_if-some Ordering.gt Ordering.lt Ordering.eq f x = absurd x
char_if-some Ordering.gt Ordering.lt Ordering.gt f x = absurd x
char_if-some Ordering.eq Ordering.eq q f x = absurd x
char_if-some Ordering.eq Ordering.gt q f x = absurd x
char_if-some Ordering.gt Ordering.eq q f x = absurd x
char_if-some Ordering.gt Ordering.gt q f x = absurd x

to_char-code : (c : Char) → to_char (code c) ≡ some c
unfolding to_char
to_char-code (char n x) =
    char_if-some (compare n 55296) (compare 57343 n) (compare n 1114112) (char n) x

push-code : (c : Char) (s : String) → push (code c) (some s) ≡ some (String.◌∷◌ c s)
unfolding push
push-code c s = rw (push, to_char-code c) refl

Scalar-lt :
    (n : ℕ) (o p q : Ordering)
    → compare n 55296 ≡ o
    → compare n 1114112 ≡ q
    → Scalar o p q
    → n < 1114112
Scalar-lt n Ordering.lt p q eo eq x = ground arith
Scalar-lt n Ordering.eq Ordering.lt Ordering.lt eo eq x = ground arith
Scalar-lt n Ordering.gt Ordering.lt Ordering.lt eo eq x = ground arith
Scalar-lt n Ordering.eq Ordering.lt Ordering.eq eo eq x = absurd x
Scalar-lt n Ordering.eq Ordering.lt Ordering.gt eo eq x = absurd x
Scalar-lt n Ordering.gt Ordering.lt Ordering.eq eo eq x = absurd x
Scalar-lt n Ordering.gt Ordering.lt Ordering.gt eo eq x = absurd x
Scalar-lt n Ordering.eq Ordering.eq q eo eq x = absurd x
Scalar-lt n Ordering.eq Ordering.gt q eo eq x = absurd x
Scalar-lt n Ordering.gt Ordering.eq q eo eq x = absurd x
Scalar-lt n Ordering.gt Ordering.gt q eo eq x = absurd x

pub code_lt : (c : Char) → code c < 1114112
code_lt (char n x) = Scalar-lt n (compare n 55296) (compare 57343 n) (compare n 1114112) refl refl x

decode_idle : (bits least : ℕ) (s : List ℕ) → decode 0 bits least s ≡ decode 0 0 0 s
unfolding decode
decode_idle bits least [] = refl
decode_idle bits least (a ∷ s) = refl

decode-ascii : (a : ℕ) (s : List ℕ) → a < 0x80 → decode 0 0 0 (a ∷ s) ≡ push a (decode 0 0 0 s)
unfolding decode
decode-ascii a s h = rw (lt→ltb a 0x80 h, decode_idle 0 0 s) refl

decode_lead :
    (a : ℕ) (s : List ℕ)
    → 0xc0 ≤ a
    → a < 0xf8
    → decode 0 0 0 (a ∷ s) ≡ decode (followers a) (leading_bits a) (least_code a) s
unfolding decode
decode_lead a s h h' =
    rw (le→ltb-false a 0x80 (omega arith), le→ltb-false a 0xc0 h, lt→leb-false 0xf8 a h') refl

decode_more :
    (need bits least a n : ℕ) (s : List ℕ)
    → 0x80 ≤ a
    → a < 0xc0
    → bits * 64 + (a - 0x80) ≡ n
    → decode (suc (suc need)) bits least (a ∷ s) ≡ decode (suc need) n least s
unfolding decode
decode_more need bits least a n s h h' e =
    rw (e, le→ltb-false a 0x80 h, lt→leb-false 0xc0 a h', lt→ltb 0 (suc need) (omega arith)) refl

decode_last :
    (bits least a n : ℕ) (s : List ℕ)
    → 0x80 ≤ a
    → a < 0xc0
    → bits * 64 + (a - 0x80) ≡ n
    → least ≤ n
    → decode 1 bits least (a ∷ s) ≡ push n (decode 0 0 0 s)
unfolding decode
decode_last bits least a n s h h' e hl =
    rw
      (
        e,
        le→ltb-false a 0x80 h,
        lt→leb-false 0xc0 a h',
        le→ltb-false n least hl,
        decode_idle n least s,
      )
      refl

decode_two :
    (n : ℕ) (s : List ℕ)
    → 0x80 ≤ n
    → n < 0x800
    → decode 0 0 0 ((0xc0 + n / 64) ∷ (0x80 + n % 64) ∷ s) ≡ push n (decode 0 0 0 s)
decode_two n s h h' =
    let a = 0xc0 + n / 64 in
    decode_lead a _ (omega arith) (omega arith)
    ∙ (rw (le→ltb-false a 0x80 (omega arith), lt→ltb a 0xe0 (omega arith))
        (decode_last (a - 0xc0) 0x80 (0x80 + n % 64) n s (omega arith) (omega arith) (omega arith)
          h))

decode_three :
    (n : ℕ) (s : List ℕ)
    → 0x800 ≤ n
    → n < 0x10000
    → decode 0 0 0 ((0xe0 + n / 4096) ∷ (0x80 + n / 64 % 64) ∷ (0x80 + n % 64) ∷ s)
      ≡ push n (decode 0 0 0 s)
decode_three n s h h' =
    let a = 0xe0 + n / 4096 in
    let b = 0x80 + n / 64 % 64 in
    decode_lead a _ (omega arith) (omega arith)
    ∙ (rw
        (
          le→ltb-false a 0x80 (omega arith),
          le→ltb-false a 0xe0 (omega arith),
          lt→ltb a 0xf0 (omega arith),
        )
        (decode_more 0 (a - 0xe0) 0x800 b (n / 64) _ (omega arith) (omega arith) (omega arith)
          ∙ decode_last (n / 64) 0x800 (0x80 + n % 64) n s (omega arith) (omega arith) (omega arith)
              h))

decode_four :
    (n : ℕ) (s : List ℕ)
    → 0x10000 ≤ n
    → n < 1114112
    → decode 0 0 0
        ((0xf0 + n / 262144) ∷ (0x80 + n / 4096 % 64) ∷ (0x80 + n / 64 % 64) ∷ (0x80 + n % 64) ∷ s)
      ≡ push n (decode 0 0 0 s)
decode_four n s h h' =
    let a = 0xf0 + n / 262144 in
    let b = 0x80 + n / 4096 % 64 in
    let c = 0x80 + n / 64 % 64 in
    decode_lead a _ (omega arith) (omega arith)
    ∙ (rw
        (
          le→ltb-false a 0x80 (omega arith),
          le→ltb-false a 0xe0 (omega arith),
          le→ltb-false a 0xf0 (omega arith),
        )
        (decode_more 1 (a - 0xf0) 0x10000 b (n / 4096) _ (omega arith) (omega arith) (omega arith)
          ∙ (decode_more 0 (n / 4096) 0x10000 c (n / 64) _ (omega arith) (omega arith) (omega arith)
              ∙ decode_last (n / 64) 0x10000 (0x80 + n % 64) n s (omega arith) (omega arith)
                  (omega arith) h)))

-- The bytes of one character are read as that character.
decode-utf8_bytes :
    (n : ℕ) (s : List ℕ) → n < 1114112 → decode 0 0 0 (utf8_bytes n ++ s) ≡ push n (decode 0 0 0 s)
unfolding utf8_bytes
decode-utf8_bytes n s h = elim (Bool-cases (ltb n 0x80)) [
  | inl e1 ↦ rw (e1) (decode-ascii n s (ltb→lt n 0x80 e1))
  | inr e1 ↦ elim (Bool-cases (ltb n 0x800)) [
    | inl e2 ↦ rw (e1, e2) (decode_two n s (ground arith) (ltb→lt n 0x800 e2))
    | inr e2 ↦ elim (Bool-cases (ltb n 0x10000)) [
      | inl e3 ↦ rw (e1, e2, e3) (decode_three n s (ground arith) (ltb→lt n 0x10000 e3))
      | inr e3 ↦ rw (e1, e2, e3) (decode_four n s (ground arith) h)
    ]
  ]
]

pub from_utf8-as_bytes : (s : String) → from_utf8 (as_bytes s) ≡ some s
unfolding from_utf8 as_bytes
from_utf8-as_bytes String.[] = refl
from_utf8-as_bytes (String.◌∷◌ c s) =
    rw (decode-utf8_bytes (code c) (as_bytes s) (code_lt c), from_utf8-as_bytes s) (push-code c s)

utf8_bytes-IsByte :
    (n : ℕ) (s : List ℕ) → n < 1114112 → All IsByte s → All IsByte (utf8_bytes n ++ s)
unfolding utf8_bytes
utf8_bytes-IsByte n s h rest = elim (Bool-cases (ltb n 0x80)) [
  | inl e1 ↦ rw (e1) ((ground arith), rest)
  | inr e1 ↦ elim (Bool-cases (ltb n 0x800)) [
    | inl e2 ↦ rw (e1, e2) ((ground arith), ((omega arith), rest))
    | inr e2 ↦ elim (Bool-cases (ltb n 0x10000)) [
      | inl e3 ↦ rw (e1, e2, e3) ((ground arith), ((omega arith), ((omega arith), rest)))
      | inr e3 ↦
          rw (e1, e2, e3) ((omega arith), ((omega arith), ((omega arith), ((omega arith), rest))))
    ]
  ]
]

pub as_bytes-IsByte : (s : String) → All IsByte (as_bytes s)
unfolding as_bytes
as_bytes-IsByte String.[] = tt
as_bytes-IsByte (String.◌∷◌ c s) =
    utf8_bytes-IsByte (code c) (as_bytes s) (code_lt c) (as_bytes-IsByte s)
