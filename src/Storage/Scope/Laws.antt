-- ===== src/Storage/Scope/Laws.antt =====
-- The test of the SQL statements and the one of the Rust code agree.
use Prim.Native.Char.{Char, code}
use Prim.Native.String.{◌++◌}
use text.Mathlib.TextEquality.{Char-path, eq_iff}
use text.Mathlib.TextLemmas.{cons-append, head-eq_of_cons-eq, tail-eq_of_cons-eq, nil≢cons}
use quick_mail.Prelude.{
  ℕ, suc, zero, ◌+◌, String, Bool, false, ◌≡◌, refl, arith, ap, ◌==◌, string_eq, nat_beq,
  if◌then◌else◌, Bool-cases, inl, inr,
}
use quick_mail.Codec.Chars.{any_char}
use quick_mail.Storage.Scope.{in_calendar_scope, calendar_is_scoped, sql_length, sql_substr}

abbrev pub is_nul : Char → Bool
is_nul c = nat_beq (code c) 0

cons_eq : (c d : Char) (s t : String) → code c ≡ code d → s ≡ t → String.◌∷◌ c s ≡ String.◌∷◌ d t
cons_eq c d s t h k = cc (Char-path c d h)

code_head : {c d : Char} {s t : String} → String.◌∷◌ c s ≡ String.◌∷◌ d t → code c ≡ code d
code_head h = ap code (head-eq_of_cons-eq h)

-- Two texts that begin with the same character are equal exactly when the rest is.
beq-cons :
    (c d : Char) (s t : String)
    → (String.◌∷◌ c s == String.◌∷◌ d t) ≡ (if nat_beq (code c) (code d) then s == t else false)
beq-cons c d s t = ground (
  arith,
  eq_iff (String.◌∷◌ c s) (String.◌∷◌ d t),
  eq_iff s t,
  cons_eq c d s t,
  code_head {c = c} {d = d} {s = s} {t = t},
  tail-eq_of_cons-eq {x = c} {y = d} {xs = s} {ys = t},
)

nil_beq : (c : Char) (s : String) → (String.[] == String.◌∷◌ c s) ≡ false
nil_beq c s = elim (Bool-cases (String.[] == String.◌∷◌ c s)) [
  | inl e ↦ absurd (nil≢cons ((eq_iff String.[] (String.◌∷◌ c s)).0 e))
  | inr e ↦ e
]

sql_substr_nil : (n : ℕ) → sql_substr String.[] n ≡ String.[]
unfolding sql_substr
sql_substr_nil zero = refl
sql_substr_nil (suc n) = refl

suc-add_one : (n : ℕ) → suc n + 1 ≡ suc (n + 1)
suc-add_one n = omega arith

-- The statements that delete the events of an account (`substr(calendar_id, …)`) pick exactly the
-- calendars that the check of a remote page (`strip_prefix`) accepts for it, where the account's id
-- has no NUL character; the calendar's id is any text.
pub in_calendar_scope-calendar_is_scoped :
    (account_id calendar_id : String)
    → any_char is_nul account_id ≡ false
    → in_calendar_scope account_id calendar_id ≡ calendar_is_scoped account_id calendar_id
unfolding in_calendar_scope calendar_is_scoped sql_length sql_substr
in_calendar_scope-calendar_is_scoped String.[] String.[] clean = refl
in_calendar_scope-calendar_is_scoped String.[] (String.◌∷◌ d t) clean =
    elim (Bool-cases (nat_beq (code d) 0)) [
      | inl nul ↦ rw (nul) (ground arith)
      | inr plain ↦ rw (plain, beq-cons d ":" String.[] String.[]) (ground arith)
    ]
in_calendar_scope-calendar_is_scoped (String.◌∷◌ c s) String.[] clean =
    rw (cons-append c s ":", sql_substr_nil (sql_length (String.◌∷◌ c s) + 1))
      (nil_beq c (s ++ ":"))
in_calendar_scope-calendar_is_scoped (String.◌∷◌ c s) (String.◌∷◌ d t) clean =
    let here : is_nul c ≡ false = ground (arith, clean) in
    let later : any_char is_nul s ≡ false = ground (arith, clean) in
    elim (Bool-cases (nat_beq (code d) 0)) [
      | inl nul ↦
          rw (here, suc-add_one (sql_length s), nul, cons-append c s ":", nil_beq c (s ++ ":"))
            (ground arith)
      | inr plain ↦
          rw (here, suc-add_one (sql_length s), plain, cons-append c s ":", beq-cons d c _ _)
            (ground (arith, in_calendar_scope-calendar_is_scoped s t later))
    ]
