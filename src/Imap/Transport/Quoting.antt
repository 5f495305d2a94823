-- ===== src/Imap/Transport/Quoting.antt =====
-- What reaches the server of a text.
use Prim.Native.Char.{Char, code}
use Prim.Native.String.{◌++◌}
use text.Mathlib.TextLemmas.{nil-append, cons-append, append_assoc}
use quick_mail.Prelude.{
  String, false, ◌||◌, Option, none, some, ◌≡◌, refl, arith, inl, inr, Bool-cases, nat_beq,
  if◌then◌else◌,
}
use quick_mail.Codec.Chars.{any_char}
use quick_mail.Imap.Error.{done}
use quick_mail.Imap.Transport.{validate_imap_text, is_prohibited, escape_imap, quote_imap}

abbrev onto_text : Char → Option (String × String) → Option (String × String)
onto_text c none = none
onto_text c (some (s, rest)) = some (String.◌∷◌ c s, rest)

-- How a server reads a quoted string of RFC 3501, from behind its first quote: a backslash makes
-- the next character literal, and an unescaped quote ends the string. What follows is left.
unfoldable pub read_quoted : String → Option (String × String)
read_quoted String.[] = none
read_quoted (String.◌∷◌ c String.[]) = if nat_beq (code c) 34 then some ("", "") else none
read_quoted (String.◌∷◌ c (String.◌∷◌ d s)) =
    let escaped = read_quoted s in
    let plain = read_quoted (String.◌∷◌ d s) in
    if nat_beq (code c) 34
    then some ("", String.◌∷◌ d s)
    else if nat_beq (code c) 92
    then onto_text d escaped
    else onto_text c plain

-- The string as a whole.
unfoldable pub read_string : String → Option (String × String)
unfolding read_quoted
read_string String.[] = none
read_string (String.◌∷◌ c s) = if nat_beq (code c) 34 then read_quoted s else none

read_quoted-plain :
    (c : Char) (s : String)
    → (nat_beq (code c) 92 || nat_beq (code c) 34) ≡ false
    → read_quoted (String.◌∷◌ c s) ≡ onto_text c (read_quoted s)
unfolding read_quoted
read_quoted-plain c String.[] h = ground arith
read_quoted-plain c (String.◌∷◌ d s) h = ground arith

read_quoted-escaped :
    (c : Char) (s : String)
    → read_quoted (String.◌∷◌ "\\" (String.◌∷◌ c s)) ≡ onto_text c (read_quoted s)
unfolding read_quoted
read_quoted-escaped c s = refl

read_quoted-end : (rest : String) → read_quoted (String.◌∷◌ "\"" rest) ≡ some ("", rest)
unfolding read_quoted
read_quoted-end String.[] = refl
read_quoted-end (String.◌∷◌ d s) = refl

read_quoted-escape_imap :
    (value rest : String)
    → read_quoted (escape_imap value ++ String.◌∷◌ "\"" rest) ≡ some (value, rest)
unfolding escape_imap
read_quoted-escape_imap String.[] rest =
    rw (nil-append (String.◌∷◌ "\"" rest)) (read_quoted-end rest)
read_quoted-escape_imap (String.◌∷◌ c s) rest =
    let quote = String.◌∷◌ "\"" rest in
    elim (Bool-cases (nat_beq (code c) 92 || nat_beq (code c) 34)) [
      | inl special ↦
          rw
            (
              special,
              cons-append "\\" (String.◌∷◌ c (escape_imap s)) quote,
              cons-append c (escape_imap s) quote,
              read_quoted-escaped c (escape_imap s ++ quote),
              read_quoted-escape_imap s rest,
            )
            refl
      | inr plain ↦
          rw
            (
              plain,
              cons-append c (escape_imap s) quote,
              read_quoted-plain c (escape_imap s ++ quote) plain,
              read_quoted-escape_imap s rest,
            )
            refl
    ]

-- A text without line breaks and NUL is quoted, and the server reads it from the command as it is:
-- the quoted string ends where the text ends, so no part of the text is read as a command.
pub read_string-quote_imap :
    (value rest : String)
    → any_char is_prohibited value ≡ false
    → (quoted : String) × (quote_imap value ≡ done quoted)
      × (read_string (quoted ++ rest) ≡ some (value, rest))
unfolding quote_imap validate_imap_text read_string
read_string-quote_imap value rest clean = (
  String.◌∷◌ "\"" (escape_imap value ++ "\""),
  (rw (quote_imap, validate_imap_text, clean) refl),
  (rw
      (
        cons-append "\"" (escape_imap value ++ "\"") rest,
        append_assoc (escape_imap value) "\"" rest,
        cons-append "\"" "" rest,
        nil-append rest,
      )
      (read_quoted-escape_imap value rest)),
)
