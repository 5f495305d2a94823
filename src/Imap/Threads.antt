-- ===== src/Imap/Threads.antt =====
-- Which conversation a message of IMAP belongs to: RFC message ids of
-- crates/quickmaild/src/providers/imap_smtp.rs in one form.
use Prim.Native.Char.{Char, code}
use Prim.Native.String.{◌++◌, len}
use quick_mail.Prelude.{
  ℕ, String, Bool, ◌&&◌, ◌||◌, Option, none, some, List, [], ◌∷◌, ◌==◌, string_eq, ltb, leb, ◌≡◌,
  refl, ◌-◌, nat_beq, if◌then◌else◌,
}
use quick_mail.Codec.Chars.{any_char, is_whitespace, nth_char}
use quick_mail.Models.Ids.{normalized_message_id}

abbrev pub is_code : ℕ → Char → Bool
is_code n c = nat_beq (code c) n

-- `str::trim_start` and `str::trim_end`.
unfoldable pub trim_start : String → String
trim_start String.[] = ""
trim_start (String.◌∷◌ c s) =
    let rest = trim_start s in if is_whitespace c then rest else String.◌∷◌ c s

unfoldable pub trim_end : String → String
trim_end String.[] = ""
trim_end (String.◌∷◌ c s) =
    let rest = trim_end s in if is_whitespace c && rest == "" then "" else String.◌∷◌ c rest

unfoldable pub trim : String → String
unfolding trim_start trim_end
trim s = trim_end (trim_start s)

-- The text before its last character, if that passes the test.
unfoldable pub strip_last : (Char → Bool) → String → Option String
strip_last p String.[] = none
strip_last p (String.◌∷◌ c String.[]) = if p c then some "" else none
strip_last p (String.◌∷◌ c (String.◌∷◌ d s)) = elim (strip_last p (String.◌∷◌ d s)) [
  | none ↦ none
  | some rest ↦ some (String.◌∷◌ c rest)
]

abbrev strip_first : (Char → Bool) → String → Option String
strip_first p String.[] = none
strip_first p (String.◌∷◌ c s) = if p c then some s else none

-- `strip_prefix(open).and_then(|value| value.strip_suffix(close))`.
unfoldable pub between : ℕ → ℕ → String → Option String
unfolding strip_last
between first last s = elim (strip_first (is_code first) s) [
  | none ↦ none
  | some rest ↦ strip_last (is_code last) rest
]

-- `rsplit_once('@')`.
unfoldable pub rsplit_once_at : String → Option (String × String)
rsplit_once_at String.[] = none
rsplit_once_at (String.◌∷◌ c s) = elim (rsplit_once_at s) [
  | some (local, domain) ↦ some (String.◌∷◌ c local, domain)
  | none ↦ if is_code b'@' c then some ("", s) else none
]

abbrev onto_option : Char → Option String → Option String
onto_option c none = none
onto_option c (some s) = some (String.◌∷◌ c s)

-- The loop that takes the backslashes away; a backslash at the end is an error.
unfoldable pub unquote : String → Option String
unquote String.[] = some ""
unquote (String.◌∷◌ c String.[]) = if is_code 92 c then none else some (String.◌∷◌ c "")
unquote (String.◌∷◌ c (String.◌∷◌ d s)) =
    let escaped = unquote s in
    let plain = unquote (String.◌∷◌ d s) in
    if is_code 92 c then onto_option d escaped else onto_option c plain

-- A local part in quotes, without them.
unfoldable pub unquote_local : String → Option String
unfolding between unquote
unquote_local local = elim (between 34 34 local) [ none ↦ some local | some inner ↦ unquote inner ]

-- `char::is_control`.
unfoldable pub is_control : Char → Bool
is_control c = ltb (code c) 32 || leb 127 (code c) && ltb (code c) 160

-- `to_ascii_lowercase`.
unfoldable pub lower : Char → Char
lower c =
    if leb b'A' (code c) && leb (code c) b'Z'
    then nth_char "abcdefghijklmnopqrstuvwxyz" (code c - b'A')
    else c

unfoldable pub to_ascii_lowercase : String → String
unfolding lower
to_ascii_lowercase String.[] = ""
to_ascii_lowercase (String.◌∷◌ c s) = String.◌∷◌ (lower c) (to_ascii_lowercase s)

abbrev pub or_else {ℓ} : {A : Type ℓ} → Option A → Option A → Option A
or_else none b = b
or_else (some a) b = some a

-- `unwrap_or`.
abbrev or_default {ℓ} : {A : Type ℓ} → A → Option A → A
or_default d none = d
or_default d (some a) = a

-- The two halves of an id that has an `@`.
unfoldable pub canonical_of_halves : String → String → Option String
unfolding unquote_local to_ascii_lowercase
canonical_of_halves local domain =
    if local == "" || (domain == "" || any_char is_whitespace domain)
    then none
    else elim (unquote_local local) [
      | none ↦ none
      | some bare ↦ some (bare ++ ("@" ++ to_ascii_lowercase domain))
    ]

unfoldable pub canonical_rfc_message_id : String → Option String
unfolding trim between rsplit_once_at canonical_of_halves is_control
canonical_rfc_message_id text =
    let outer = trim text in
    let value = trim (or_default outer (between b'<' b'>' outer)) in
    if value == "" || (ltb 998 (len value) || any_char is_control value)
    then none
    else elim (rsplit_once_at value) [
      | none ↦ none
      | some (local, domain) ↦ canonical_of_halves local domain
    ]

-- `iter().find_map(canonical_rfc_message_id)`.
unfoldable pub first_canonical : List String → Option String
unfolding canonical_rfc_message_id
first_canonical [] = none
first_canonical (value ∷ values) = or_else (canonical_rfc_message_id value) (first_canonical values)

-- The name of the conversation: the first reference, or the first id replied to, or the message.
unfoldable pub thread_root : Option String → List String → List String → Option String
unfolding first_canonical
thread_root message_id references in_reply_to = or_else (first_canonical references) (
    or_else (first_canonical in_reply_to)
      (elim message_id [ none ↦ none | some id ↦ canonical_rfc_message_id id ]))

-- `Uuid::new_v5` with the namespace of object identifiers, in its text form.
module _ (uuid_v5 : String → String) where
  unfoldable pub thread_id_of_name : String → String → String
  unfolding normalized_message_id
  thread_id_of_name account_id name = normalized_message_id account_id ("thread:" ++ uuid_v5 name)

  unfoldable pub imap_thread_id : String → Option String → List String → List String → Option String
  unfolding thread_id_of_name thread_root
  imap_thread_id account_id message_id references in_reply_to =
      elim (thread_root message_id references in_reply_to) [
        | none ↦ none
        | some root ↦ some (
            thread_id_of_name account_id
              ("quickmail:rfc822-thread:" ++ (account_id ++ (":" ++ root))))
      ]

  unfoldable pub imap_singleton_thread_id : String → String → String
  unfolding thread_id_of_name
  imap_singleton_thread_id account_id native_id =
      thread_id_of_name account_id
        ("quickmail:imap-singleton:" ++ (account_id ++ (":" ++ native_id)))

quoted_local : canonical_rfc_message_id " <\"a\\b\"@Example.ORG> " ≡ some "ab@example.org"
unfolding canonical_rfc_message_id is_whitespace
quoted_local = refl
