-- ===== src/Daemon/Files.antt =====
-- Names of attachments: `safe_attachment_name` of crates/quickmaild/src/daemon.rs and
-- `sanitize_filename` of crates/quickmaild/src/providers/mime.rs.
pub mod Safe
use Prim.Native.Char.{Char, code}
use quick_mail.Prelude.{
  ℕ, zero, suc, String, Bool, true, false, not, ◌&&◌, ◌||◌, Option, none, some, List, [], ◌∷◌, ◌≡◌,
  refl, ◌==◌, string_eq, nat_beq, if◌then◌else◌,
}
use quick_mail.Codec.Chars.{all_chars, any_char, is_blank, is_whitespace}
use quick_mail.Imap.Threads.{is_control}

abbrev pub is_slash : Char → Bool
is_slash c = nat_beq (code c) b'/'

abbrev pub is_backslash : Char → Bool
is_backslash c = nat_beq (code c) 92

-- `chars().filter(p).take(limit).collect()`.
unfoldable pub filter_chars : (Char → Bool) → String → String
filter_chars p String.[] = ""
filter_chars p (String.◌∷◌ c s) =
    let rest = filter_chars p s in if p c then String.◌∷◌ c rest else rest

unfoldable pub take_chars : ℕ → String → String
take_chars zero s = ""
take_chars (suc n) String.[] = ""
take_chars (suc n) (String.◌∷◌ c s) = String.◌∷◌ c (take_chars n s)

abbrev onto_first : Char → List String → List String
onto_first c [] = String.◌∷◌ c "" ∷ []
onto_first c (s ∷ parts) = String.◌∷◌ c s ∷ parts

-- The parts between the characters that pass.
unfoldable pub split_at : (Char → Bool) → String → List String
split_at p String.[] = "" ∷ []
split_at p (String.◌∷◌ c s) =
    let parts = split_at p s in if p c then "" ∷ parts else onto_first c parts

-- The last part that is a component of a path: neither empty nor a dot.
unfoldable pub last_component : List String → Option String
last_component [] = none
last_component (part ∷ parts) = elim (last_component parts) [
  | some later ↦ some later
  | none ↦ if part == "" || part == "." then none else some part
]

-- `Path::new(filename).file_name()` of the standard library on Unix: no name ends a path that ends
-- in two dots.
unfoldable pub file_name : String → Option String
unfolding split_at last_component
file_name filename = elim (last_component (split_at is_slash filename)) [
  | none ↦ none
  | some name ↦ if name == ".." then none else some name
]

abbrev pub or_attachment : Option String → String
or_attachment none = "attachment"
or_attachment (some name) = name

abbrev pub is_name_char : Char → Bool
is_name_char c = not (is_control c) && (not (is_slash c) && not (is_backslash c))

unfoldable pub safe_attachment_name : String → String
unfolding file_name filter_chars take_chars
safe_attachment_name filename =
    let filtered =
      take_chars 160 (filter_chars is_name_char (or_attachment (file_name filename))) in
    if is_blank filtered then "attachment" else filtered

-- `rsplit(['/', '\\']).next()`: the last part.
unfoldable pub last_part : List String → Option String
last_part [] = none
last_part (part ∷ []) = some part
last_part (part ∷ next ∷ parts) = last_part (next ∷ parts)

abbrev pub is_separator : Char → Bool
is_separator c = is_slash c || is_backslash c

abbrev pub candidate : Option String → String
candidate none = "attachment"
candidate (some filename) = or_attachment (last_part (split_at is_separator filename))

unfoldable pub sanitize_filename : Option String → String
unfolding last_part split_at filter_chars take_chars is_control
sanitize_filename filename =
    let clean = take_chars 240 (filter_chars (λ c. not (is_control c)) (candidate filename)) in
    if clean == "" || (clean == "." || clean == "..") then "attachment" else clean

-- A backslash before two dots goes after the name was taken from the path, so two dots are left.
two_dots : safe_attachment_name "\\.." ≡ ".."
unfolding safe_attachment_name is_control is_blank is_whitespace
two_dots = refl

two_dots_refused : sanitize_filename (some "mail\\..") ≡ "attachment"
unfolding sanitize_filename
two_dots_refused = refl
