-- ===== src/Models/Ids.antt =====
-- crates/quickmail-core/src/models.rs: message keys, `{account_id}:{provider_id}`.
use Prim.Native.Char.{code}
use Prim.Native.String.{◌++◌}
use text.Mathlib.TextLemmas.{cons≢nil}
use quick_mail.Prelude.{
  String, Bool, true, false, Option, none, some, ◌≡◌, nat_beq, if◌then◌else◌, Bool-cases, inl, inr,
  ◌==◌, string_eq, eq_of_beq,
}

-- `str::strip_prefix`: `strip_prefix p s` is what follows `p` in `s`.
abbrev pub strip_prefix : String → String → Option String
strip_prefix String.[] s = some s
strip_prefix (String.◌∷◌ c p) String.[] = none
strip_prefix (String.◌∷◌ c p) (String.◌∷◌ d s) =
    let rest = strip_prefix p s in if nat_beq (code c) (code d) then rest else none

unfoldable pub normalized_message_id : String → String → String
normalized_message_id account_id provider_id = account_id ++ (":" ++ provider_id)

-- `suffix.starts_with(':') && suffix.len() > 1`: a colon, and at least one more character.
abbrev pub is_id_suffix : String → Bool
is_id_suffix String.[] = false
is_id_suffix (String.◌∷◌ c String.[]) = false
is_id_suffix (String.◌∷◌ c (String.◌∷◌ d s)) = nat_beq (code c) b':'

unfoldable pub is_normalized_message_id : String → String → Bool
is_normalized_message_id account_id id = elim (strip_prefix account_id id) [
  | none ↦ false
  | some suffix ↦ is_id_suffix suffix
]

-- `suffix.starts_with(':')`.
abbrev pub starts_with_colon : String → Bool
starts_with_colon String.[] = false
starts_with_colon (String.◌∷◌ c s) = nat_beq (code c) b':'

-- No normalized id is empty.
pub normalized-nonempty :
    (account_id id : String) → is_normalized_message_id account_id id ≡ true → (id == "") ≡ false
unfolding is_normalized_message_id
normalized-nonempty String.[] String.[] h = cc
normalized-nonempty (String.◌∷◌ c a) String.[] h = cc
normalized-nonempty a (String.◌∷◌ d s) h = elim (Bool-cases (String.◌∷◌ d s == "")) [
  | inl e ↦ absurd (cons≢nil (eq_of_beq (String.◌∷◌ d s) "" e))
  | inr e ↦ e
]
