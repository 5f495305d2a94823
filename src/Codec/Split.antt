-- ===== src/Codec/Split.antt =====
-- `str::split(':')` and `str::split_once(':')` of the standard library.
use Prim.Native.Char.{Char, code}
use Prim.Native.String.{◌++◌}
use text.Mathlib.TextLemmas.{nil-append, cons-append}
use quick_mail.Prelude.{
  String, Bool, true, not, Option, none, some, List, [], ◌∷◌, ◌≡◌, refl, arith, ap, ◌∙◌, and_true,
  not-true, nat_beq, if◌then◌else◌,
}
use quick_mail.Codec.Chars.{all_chars}
use quick_mail.Codec.Decimal.{is_digit}

abbrev pub is_colon : Char → Bool
is_colon c = nat_beq (code c) b':'

-- A character joins the first part.
abbrev pub onto_first : Char → List String → List String
onto_first c [] = String.◌∷◌ c "" ∷ []
onto_first c (s ∷ parts) = String.◌∷◌ c s ∷ parts

-- The parts between the colons; at least one.
unfoldable pub split_colons : String → List String
split_colons String.[] = "" ∷ []
split_colons (String.◌∷◌ c s) =
    let parts = split_colons s in if is_colon c then "" ∷ parts else onto_first c parts

abbrev pub onto_pair : Char → Option (String × String) → Option (String × String)
onto_pair c none = none
onto_pair c (some (s, t)) = some (String.◌∷◌ c s, t)

-- What stands before the first colon, and after it.
unfoldable pub split_once_colon : String → Option (String × String)
split_once_colon String.[] = none
split_once_colon (String.◌∷◌ c s) =
    let rest = split_once_colon s in if is_colon c then some ("", s) else onto_pair c rest

unfoldable pub no_colon : String → Bool
no_colon s = all_chars (λ c. not (is_colon c)) s

colon-append : (t : String) → ":" ++ t ≡ String.◌∷◌ ":" t
colon-append t = cons-append ":" "" t ∙ ap (λ u. String.◌∷◌ ":" u) (nil-append t)

-- No part is lost where a text has no colon.
pub split_colons-last : (s : String) → no_colon s ≡ true → split_colons s ≡ s ∷ []
unfolding split_colons no_colon
split_colons-last String.[] h = refl
split_colons-last (String.◌∷◌ c s) h =
    let (here, later) = and_true (not (is_colon c)) (no_colon s) h in
    rw (not-true (is_colon c) here, split_colons-last s later) refl

pub split_colons-append :
    (s t : String) → no_colon s ≡ true → split_colons (s ++ (":" ++ t)) ≡ s ∷ split_colons t
unfolding split_colons no_colon
split_colons-append String.[] t h = rw (nil-append (":" ++ t), colon-append t) refl
split_colons-append (String.◌∷◌ c s) t h =
    let (here, later) = and_true (not (is_colon c)) (no_colon s) h in
    rw (cons-append c s (":" ++ t), not-true (is_colon c) here, split_colons-append s t later) refl

pub split_once_colon-append :
    (s t : String) → no_colon s ≡ true → split_once_colon (s ++ (":" ++ t)) ≡ some (s, t)
unfolding split_once_colon no_colon
split_once_colon-append String.[] t h = rw (nil-append (":" ++ t), colon-append t) refl
split_once_colon-append (String.◌∷◌ c s) t h =
    let (here, later) = and_true (not (is_colon c)) (no_colon s) h in
    rw (cons-append c s (":" ++ t), not-true (is_colon c) here, split_once_colon-append s t later)
      refl

pub all_digits-no_colon : (s : String) → all_chars is_digit s ≡ true → no_colon s ≡ true
unfolding no_colon is_digit
all_digits-no_colon String.[] h = refl
all_digits-no_colon (String.◌∷◌ c s) h = ground (arith, all_digits-no_colon s)
