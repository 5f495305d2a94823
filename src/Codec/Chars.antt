-- ===== src/Codec/Chars.antt =====
-- Characters of tables, and checks of all small numbers by evaluation.
use Prim.Native.Char.{Char, code}
use quick_mail.Prelude.{
  ℕ, zero, suc, ◌<◌, String, Bool, true, false, ◌&&◌, ◌≡◌, arith, nat_beq, leb, ◌||◌,
}

-- Whether every number below `n` passes.
abbrev pub all_below : ℕ → (ℕ → Bool) → Bool
all_below zero p = true
all_below (suc n) p = p n && all_below n p

pub all_below_sound : (n : ℕ) (p : ℕ → Bool) (x : ℕ) → all_below n p ≡ true → x < n → p x ≡ true
all_below_sound zero p x h lt = absurd (omega arith)
all_below_sound (suc n) p x h lt = ground (arith, all_below_sound n p x)

-- `TABLE[n] as char`; the tables are as long as the index can grow.
abbrev pub nth_char : String → ℕ → Char
nth_char String.[] n = "0"
nth_char (String.◌∷◌ c s) zero = c
nth_char (String.◌∷◌ c s) (suc n) = nth_char s n

-- Whether some character of the text passes.
abbrev pub any_char : (Char → Bool) → String → Bool
any_char p String.[] = false
any_char p (String.◌∷◌ c s) = p c || any_char p s

abbrev pub all_chars : (Char → Bool) → String → Bool
all_chars p String.[] = true
all_chars p (String.◌∷◌ c s) = p c && all_chars p s

-- `char::is_whitespace`: the White_Space property of Unicode.
unfoldable pub is_whitespace : Char → Bool
is_whitespace c =
    let n = code c in
    leb 9 n && leb n 13
    || (nat_beq n 0x20
        || (nat_beq n 0x85
            || (nat_beq n 0xa0
                || (nat_beq n 0x1680
                    || (leb 0x2000 n && leb n 0x200a
                        || (nat_beq n 0x2028
                            || (nat_beq n 0x2029
                                || (nat_beq n 0x202f
                                    || (nat_beq n 0x205f || nat_beq n 0x3000)))))))))

-- `text.trim().is_empty()`.
unfoldable pub is_blank : String → Bool
unfolding is_whitespace
is_blank s = all_chars is_whitespace s
