-- ===== src/Codec/Decimal.antt =====
-- `u64::to_string` and `str::parse::<u64>` of the standard library.
use Prim.Native.Char.{Char, code}
use quick_mail.Prelude.{
  ℕ, zero, suc, ◌+◌, ◌-◌, ◌*◌, ◌/◌, ◌%◌, ◌^◌, ◌<◌, String, Bool, true, false, Option, none, some,
  ◌≡◌, refl, ap, sym, ◌∙◌, arith, inl, inr, Bool-cases, ltb, ltb→lt, lt→ltb, nat_beq, nat_beq_iff,
  if◌then◌else◌,
}
use quick_mail.Codec.Chars.{all_below, all_below_sound, nth_char, all_chars}

unfoldable pub digit : ℕ → Char
digit d = nth_char "0123456789" d

-- The digits of `n` before `out`, the last digit first; at most one more digit than the fuel.
unfoldable pub emit : ℕ → ℕ → String → String
emit zero n out = String.◌∷◌ (digit n) out
emit (suc fuel) n out =
    let more = emit fuel (n / 10) (String.◌∷◌ (digit (n % 10)) out) in
    if ltb n 10 then String.◌∷◌ (digit n) out else more

-- A u64 has at most twenty digits.
unfoldable pub show_u64 : ℕ → String
show_u64 n = emit 19 n ""

unfoldable pub is_digit : Char → Bool
is_digit c = if ltb (code c) b'0' then false else ltb (code c) (b'0' + 10)

-- `checked_mul(10)` and `checked_add(digit)`, for each character.
unfoldable pub scan : ℕ → String → Option ℕ
scan n String.[] = some n
scan n (String.◌∷◌ c s) =
    let rest = scan (n * 10 + (code c - b'0')) s in
    if is_digit c then (if ltb (n * 10 + (code c - b'0')) (2 ^ 64) then rest else none) else none

-- A leading plus sign is accepted, a text with no digit is not.
unfoldable pub parse_u64 : String → Option ℕ
parse_u64 String.[] = none
parse_u64 (String.◌∷◌ c String.[]) = scan 0 (String.◌∷◌ c String.[])
parse_u64 (String.◌∷◌ c (String.◌∷◌ d s)) =
    if nat_beq (code c) b'+'
    then scan 0 (String.◌∷◌ d s)
    else scan 0 (String.◌∷◌ c (String.◌∷◌ d s))

digit_table : all_below 10 (λ d. nat_beq (code (digit d)) (b'0' + d)) ≡ true
unfolding digit
digit_table = refl

pub code-digit : (d : ℕ) → d < 10 → code (digit d) ≡ b'0' + d
code-digit d h =
    let p : ℕ → Bool = λ k. nat_beq (code (digit k)) (b'0' + k) in
    (nat_beq_iff (code (digit d)) (b'0' + d)).0 (all_below_sound 10 p d digit_table h)

add_sub : (d : ℕ) → b'0' + d - b'0' ≡ d
add_sub d = omega arith

is_digit-digit : (d : ℕ) → d < 10 → is_digit (digit d) ≡ true
unfolding is_digit
is_digit-digit d h = rw (code-digit d h) (ground arith)

-- Reading one more digit.
pub scan-digit :
    (n d : ℕ) (out : String)
    → d < 10
    → n * 10 + d < 2 ^ 64
    → scan n (String.◌∷◌ (digit d) out) ≡ scan (n * 10 + d) out
unfolding scan
scan-digit n d out h fits = rw (is_digit-digit d h, code-digit d h, add_sub d, lt→ltb _ _ fits) refl

scan-emit :
    (fuel n : ℕ) (out : String)
    → n < 10 ^ suc fuel
    → n < 2 ^ 64
    → scan 0 (emit fuel n out) ≡ scan n out
unfolding emit
scan-emit zero n out small h = ground (arith, scan-digit 0 n out)
scan-emit (suc fuel) n out small h = ground (
  arith,
  scan-digit 0 n out,
  scan-digit (n / 10) (n % 10) out,
  scan-emit fuel (n / 10) (String.◌∷◌ (digit (n % 10)) out),
)

-- What is printed starts with a digit.
emit-head :
    (fuel n : ℕ) (out : String)
    → n < 10 ^ suc fuel
    → (d : ℕ) × (rest : String) × (d < 10) × (emit fuel n out ≡ String.◌∷◌ (digit d) rest)
unfolding emit
emit-head zero n out small = (n, out, (omega arith), refl)
emit-head (suc fuel) n out small =
    let (d, rest, lt, e) =
      emit-head fuel (n / 10) (String.◌∷◌ (digit (n % 10)) out) (omega arith) in
    elim (Bool-cases (ltb n 10)) [
      | inl h ↦ (n, out, (ltb→lt n 10 h), (rw (h) refl))
      | inr h ↦ (d, rest, lt, (rw (h) e))
    ]

parse-digit :
    (d : ℕ) (s : String)
    → d < 10
    → parse_u64 (String.◌∷◌ (digit d) s) ≡ scan 0 (String.◌∷◌ (digit d) s)
unfolding parse_u64
parse-digit d String.[] h = refl
parse-digit d (String.◌∷◌ c s) h = rw (code-digit d h) (ground arith)

pub parse_u64-show_u64 : (n : ℕ) → n < 2 ^ 64 → parse_u64 (show_u64 n) ≡ some n
unfolding show_u64 scan
parse_u64-show_u64 n h =
    let (d, rest, lt, e) = emit-head 19 n "" (omega arith) in
    ap parse_u64 e
    ∙ (parse-digit d rest lt ∙ (sym (ap (scan 0) e) ∙ scan-emit 19 n "" (omega arith) h))

all_digits-emit :
    (fuel n : ℕ) (out : String)
    → n < 10 ^ suc fuel
    → all_chars is_digit out ≡ true
    → all_chars is_digit (emit fuel n out) ≡ true
unfolding emit
all_digits-emit zero n out small h = rw (is_digit-digit n (omega arith)) h
all_digits-emit (suc fuel) n out small h = ground (
  arith,
  is_digit-digit n,
  is_digit-digit (n % 10),
  all_digits-emit fuel (n / 10) (String.◌∷◌ (digit (n % 10)) out),
)

-- What is printed has digits only.
pub all_digits-show_u64 : (n : ℕ) → n < 2 ^ 64 → all_chars is_digit (show_u64 n) ≡ true
unfolding show_u64
all_digits-show_u64 n h = all_digits-emit 19 n "" (omega arith) refl
