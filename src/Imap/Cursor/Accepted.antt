-- ===== src/Imap/Cursor/Accepted.antt =====
-- What the cache asks of a cursor holds of every cursor of IMAP.
use Prim.Native.Char.{len_utf8}
use Prim.Native.String.len
use Prim.Native.String.{◌++◌, len}
use text.Mathlib.TextLemmas.{nil-append, cons-append}
use text.Mathlib.TextPositions.{len-append}
use quick_mail.Prelude.{
  ℕ, zero, suc, ◌+◌, ◌/◌, ◌%◌, ◌^◌, ◌<◌, ◌≤◌, String, true, false, ◌||◌, some, ◌≡◌, refl, ap, ◌∙◌,
  subst, inl, inr, Bool-cases, ◌==◌, string_eq, eq_of_beq, le→ltb-false, arith, nat_beq,
  nat_beq_iff,
}
use quick_mail.Codec.Chars.{all_below, all_below_sound, all_chars}
use quick_mail.Codec.Decimal.{digit, emit, show_u64, is_digit, all_digits-show_u64}
use quick_mail.Imap.Cursor.{UidCursor, show_cursor}
use quick_mail.Storage.SyncPage.{contains_nul, sync_cursor_is_invalid}

width_table : all_below 10 (λ d. nat_beq (len_utf8 (digit d)) 1) ≡ true
unfolding digit
width_table = refl

len_utf8-digit : (d : ℕ) → d < 10 → len_utf8 (digit d) ≡ 1
len_utf8-digit d h =
    (nat_beq_iff (len_utf8 (digit d)) 1).0
      (all_below_sound 10 (λ d. nat_beq (len_utf8 (digit d)) 1) d width_table h)

len-digit : (d : ℕ) (out : String) → d < 10 → len (String.◌∷◌ (digit d) out) ≡ 1 + len out
len-digit d out h = len.cons (digit d) out ∙ ap (λ k. k + len out) (len_utf8-digit d h)

len-emit-le :
    (fuel n : ℕ) (out : String) → n < 10 ^ suc fuel → len (emit fuel n out) ≤ suc fuel + len out
unfolding emit
len-emit-le zero n out h = omega (arith, len-digit n out (omega arith))
len-emit-le (suc fuel) n out h = ground (
  arith,
  len-digit n out,
  len-digit (n % 10) out,
  len-emit-le fuel (n / 10) (String.◌∷◌ (digit (n % 10)) out),
)

-- A printed u64 has at most twenty bytes.
len-show_u64-le : (n : ℕ) → n < 2 ^ 64 → len (show_u64 n) ≤ 20
unfolding show_u64
len-show_u64-le n h = omega (arith, len-emit-le 19 n "" (omega arith))

digits-contains_nul : (s : String) → all_chars is_digit s ≡ true → contains_nul s ≡ false
unfolding contains_nul is_digit
digits-contains_nul String.[] h = refl
digits-contains_nul (String.◌∷◌ c s) h = ground (arith, digits-contains_nul s)

contains_nul-append : (s t : String) → contains_nul (s ++ t) ≡ (contains_nul s || contains_nul t)
unfolding contains_nul
contains_nul-append String.[] t = rw (nil-append t) refl
contains_nul-append (String.◌∷◌ c s) t =
    rw (cons-append c s t, contains_nul-append s t) (ground arith)

empty_text : 0 < len "" → ⊥
empty_text h = omega arith

is_accepted :
    (text : String)
    → 0 < len text
    → len text ≤ 1024
    → contains_nul text ≡ false
    → sync_cursor_is_invalid (some text) ≡ false
unfolding sync_cursor_is_invalid
is_accepted text some_byte short no_nul = elim (Bool-cases (text == "")) [
  | inl e ↦ absurd (empty_text (subst (λ t. 0 < len t) (eq_of_beq text "" e) some_byte))
  | inr e ↦ rw (sync_cursor_is_invalid, e, le→ltb-false 1024 (len text) short, no_nul) refl
]

len-show_cursor :
    (cursor : UidCursor)
    → len (show_cursor cursor)
      ≡ len (show_u64 cursor.uid_validity) + (1 + len (show_u64 cursor.last_uid))
unfolding show_cursor
len-show_cursor cursor =
    let last = show_u64 cursor.last_uid in
    len-append (show_u64 cursor.uid_validity) (":" ++ last)
    ∙ ap (λ k. len (show_u64 cursor.uid_validity) + k) (len-append ":" last)

contains_nul-show_cursor :
    (cursor : UidCursor)
    → cursor.uid_validity < 2 ^ 64
    → cursor.last_uid < 2 ^ 64
    → contains_nul (show_cursor cursor) ≡ false
unfolding show_cursor contains_nul
contains_nul-show_cursor cursor hv hu =
    let validity = show_u64 cursor.uid_validity in
    let last = show_u64 cursor.last_uid in
    rw
      (
        contains_nul-append validity (":" ++ last),
        contains_nul-append ":" last,
        digits-contains_nul validity (all_digits-show_u64 cursor.uid_validity hv),
        digits-contains_nul last (all_digits-show_u64 cursor.last_uid hu),
      )
      refl

-- The cache accepts every cursor of two u64 numbers: it is not empty, has at most 1024 bytes, and
-- has no NUL.
pub sync_cursor_is_invalid-show_cursor :
    (cursor : UidCursor)
    → cursor.uid_validity < 2 ^ 64
    → cursor.last_uid < 2 ^ 64
    → sync_cursor_is_invalid (some (show_cursor cursor)) ≡ false
sync_cursor_is_invalid-show_cursor cursor hv hu =
    let size = len-show_cursor cursor in
    let first = len-show_u64-le cursor.uid_validity hv in
    let second = len-show_u64-le cursor.last_uid hu in
    is_accepted (show_cursor cursor) (omega arith) (omega arith)
      (contains_nul-show_cursor cursor hv hu)
