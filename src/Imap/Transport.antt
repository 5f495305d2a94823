-- ===== src/Imap/Transport.antt =====
-- The operations of `AsyncImapTransport` in crates/quickmaild/src/providers/imap_smtp.rs, over the
-- commands of an IMAP session.
pub mod CatchUp
pub mod Quoting
use Prim.Native.Char.{Char, code}
use Prim.Native.Nat.{max}
use Prim.Native.String.{◌++◌}
use quick_mail.Prelude.{
  ℕ, ◌-◌, String, Bool, true, false, not, ◌&&◌, ◌||◌, Option, none, some, List, [], ◌∷◌,
  ◌++◌ as ◌++ᴸ◌, ltb, leb, nat_beq, length, ◌==◌, string_eq, if◌then◌else◌,
}
use quick_mail.Codec.Chars.{any_char, all_chars, is_blank}
use quick_mail.Codec.Decimal.{show_u64}
use quick_mail.Imap.Cursor.{SelectedMailbox}
use quick_mail.Imap.Error.{
  Reply, done, fail, ImapError, invalid_configuration, missing_uid_validity, ok_or,
}
use quick_mail.Imap.Search.{
  IncrementalUidPage, uid_range, uid_set, newest_uid_page, recent_uid_search_windows,
  incremental_uid_search_range, incremental_uid_page, dedup,
}
use quick_mail.Storage.Order.{order_by}
use quick_mail.Imap.Session.{Step, Lane, after, ◌>>=◌, ◌>>◌, pure, lift, run_session_operation}

-- The answer to SELECT.
pub record RawMailbox : Type 0 where
  pub uid_validity : Option ℕ
  pub uid_next : Option ℕ
  pub highest_modseq : Option ℕ

-- The commands of the library async_imap on a session, `connect`, and what the timers do: a command
-- may fail with any error, a timeout too, and the world is what it then is.
pub record Server (W : Type 0) : Type 0 where
  pub connect : Step W ImapError (Unit {0})
  pub select : String → Step W ImapError RawMailbox
  pub uid_search : String → Step W ImapError (List ℕ)
  pub uid_store : String → String → Step W ImapError (Unit {0})
  pub uid_copy : String → String → Step W ImapError (Unit {0})
  pub uid_expunge : String → Step W ImapError (Unit {0})
  pub capabilities : Step W ImapError (String → Bool)
  pub run_command : String → Step W ImapError (Unit {0})

unfoldable pub is_prohibited : Char → Bool
is_prohibited c = nat_beq (code c) 13 || (nat_beq (code c) 10 || nat_beq (code c) 0)

unfoldable pub validate_imap_text : String → Reply ImapError (Unit {0})
unfolding is_prohibited
validate_imap_text value =
    if any_char is_prohibited value
    then fail (invalid_configuration "IMAP value contains prohibited control characters")
    else done tt

-- `value.replace('\\', "\\\\").replace('"', "\\\"")`: a backslash before each of the two.
unfoldable pub escape_imap : String → String
escape_imap String.[] = String.[]
escape_imap (String.◌∷◌ c s) =
    let rest = escape_imap s in
    if nat_beq (code c) 92 || nat_beq (code c) 34
    then String.◌∷◌ "\\" (String.◌∷◌ c rest)
    else String.◌∷◌ c rest

unfoldable pub quote_imap : String → Reply ImapError String
unfolding validate_imap_text escape_imap
quote_imap value = elim (validate_imap_text value) [
  | done _ ↦ done (String.◌∷◌ "\"" (escape_imap value ++ "\""))
  | fail error ↦ fail error
]

-- `u8::is_ascii_alphanumeric`, and the other characters of a flag: backslash, `-`, `_` and `.`.
is_flag_char : Char → Bool
is_flag_char c =
    let n = code c in
    leb b'0' n && leb n b'9'
    || (leb b'A' n && leb n b'Z'
        || (leb b'a' n && leb n b'z'
            || (nat_beq n 92 || (nat_beq n b'-' || (nat_beq n b'_' || nat_beq n b'.')))))

unfoldable pub validated_flags : List String → Reply ImapError (List String)
unfolding is_flag_char
validated_flags [] = done []
validated_flags (flag ∷ flags) =
    let rest = validated_flags flags in
    if not (flag == "") && all_chars is_flag_char flag
    then elim rest [ done valid ↦ done (flag ∷ valid) | fail error ↦ fail error ]
    else fail (invalid_configuration "invalid IMAP flag")

-- `join(" ")`.
unfoldable pub join_words : List String → String
join_words [] = ""
join_words (word ∷ []) = word
join_words (word ∷ other ∷ words) = word ++ (" " ++ join_words (other ∷ words))

abbrev is_empty {ℓ} : {A : Type ℓ} → List A → Bool
is_empty [] = true
is_empty (x ∷ xs) = false

-- A BTreeSet of numbers is its ascending list.
unfoldable pub extend_set : List ℕ → List ℕ → List ℕ
extend_set uids more = dedup (order_by ltb (uids ++ᴸ more))

-- The terms of `search_uids`; nothing where no UID can be found.
unfoldable pub search_terms : ℕ → Option String → Bool → Reply ImapError (Option (List String))
unfolding quote_imap
search_terms before_uid wanted unread_only =
    let range = if nat_beq before_uid 0 then "UID 1:*" else "UID 1:" ++ show_u64 (before_uid - 1) in
    let terms = range ∷ (if unread_only then "UNSEEN" ∷ [] else []) in
    if nat_beq before_uid 1 then done none else elim wanted [
      | none ↦ done (some terms)
      | some text ↦ if is_blank text then done (some terms) else elim (quote_imap text) [
        | done quoted ↦ done (some (terms ++ᴸ (("TEXT " ++ quoted) ∷ [])))
        | fail error ↦ fail error
      ]
    ]

module _ {W : Type 0} (server : Server W) where
  abbrev read_selected : RawMailbox → Reply ImapError SelectedMailbox
  read_selected raw = elim raw.uid_validity [
    | none ↦ fail missing_uid_validity
    | some validity ↦ done (record {
      uid_validity = validity;
      uid_next = elim raw.uid_next [ none ↦ 1 | some next ↦ next ];
      highest_mod_sequence = raw.highest_modseq;
    })
  ]

  unfoldable pub select_mailbox : String → Step W ImapError SelectedMailbox
  unfolding validate_imap_text
  select_mailbox mailbox = do
    lift (validate_imap_text mailbox)
    raw ← server.select mailbox
    lift (read_selected raw)

  unfoldable pub select : String → Step (Lane W) ImapError SelectedMailbox
  unfolding run_session_operation select_mailbox
  select mailbox = run_session_operation server.connect true (select_mailbox mailbox)

  -- Selects the mailbox and asks for UIDs.
  unfoldable pub search_in : String → String → Step W ImapError (List ℕ)
  unfolding select_mailbox
  search_in mailbox query = do select_mailbox mailbox; server.uid_search query

  unfoldable pub search_uids :
      String → ℕ → Option String → Bool → ℕ → Step (Lane W) ImapError (List ℕ)
  unfolding search_terms search_in
  search_uids mailbox before_uid wanted unread_only limit = do
    terms ← lift (search_terms before_uid wanted unread_only)
    elim terms [
      | none ↦ pure []
      | some words ↦ do
        uids ← run_session_operation server.connect true (search_in mailbox (join_words words))
        pure (newest_uid_page uids before_uid limit)
    ]

  -- The loop over the windows, which ends when enough UIDs are known.
  unfoldable pub search_windows : ℕ → List (ℕ × ℕ) → List ℕ → Step W ImapError (List ℕ)
  unfolding extend_set uid_range
  search_windows limit [] uids = pure uids
  search_windows limit ((first_uid, last_uid) ∷ windows) uids = do
    window ← server.uid_search (uid_range first_uid last_uid)
    let known = extend_set uids window
    if leb limit (length known) then pure known else search_windows limit windows known

  unfoldable pub search_recent_uids : String → ℕ → ℕ → Step (Lane W) ImapError (List ℕ)
  unfolding recent_uid_search_windows search_windows select_mailbox
  search_recent_uids mailbox through_uid limit = do
    windows ← lift (recent_uid_search_windows through_uid)
    if is_empty windows then pure [] else do
      uids ←
          run_session_operation server.connect true
            (select_mailbox mailbox >>= λ _. search_windows (max limit 1) windows [])
      pure (newest_uid_page uids 0 (max limit 1))

  unfoldable pub search_uids_since : String → ℕ → ℕ → ℕ → Step (Lane W) ImapError IncrementalUidPage
  unfolding incremental_uid_search_range search_in uid_range
  search_uids_since mailbox after_uid through_uid limit = do
    range ← lift (incremental_uid_search_range after_uid through_uid)
    elim range [
      | none ↦ pure (record { uids = []; high_uid = after_uid })
      | some (first_uid, covered) ↦ do
        uids ←
            run_session_operation server.connect true
              (search_in mailbox (uid_range first_uid covered))
        pure (incremental_uid_page uids after_uid covered limit)
    ]

  -- `+FLAGS.SILENT (...)`, where there are such flags.
  unfoldable pub store_some : String → String → List String → Step W ImapError (Unit {0})
  store_some uids sign flags =
      if is_empty flags
      then pure tt
      else server.uid_store uids (sign ++ ("FLAGS.SILENT (" ++ (join_words flags ++ ")")))

  unfoldable pub store_flags :
      String → List ℕ → List String → List String → Step (Lane W) ImapError (Unit {0})
  unfolding uid_set validated_flags store_some select_mailbox
  store_flags mailbox uids add remove = if is_empty uids then pure tt else do
    set ← lift (uid_set uids)
    to_add ← lift (validated_flags add)
    to_remove ← lift (validated_flags remove)
    run_session_operation server.connect false
        do select_mailbox mailbox; store_some set "+" to_add; store_some set "-" to_remove

  unfoldable pub move_command : String → String → Step W ImapError (Unit {0})
  unfolding quote_imap
  move_command set destination = do
    quoted ← lift (quote_imap destination)
    server.run_command ("UID MOVE " ++ (set ++ (" " ++ quoted)))

  unfoldable pub copy_and_delete : (String → Bool) → String → String → Step W ImapError (Unit {0})
  copy_and_delete has_str set destination = do
    server.uid_copy set destination
    server.uid_store set "+FLAGS.SILENT (\\Deleted)"
    if has_str "UIDPLUS" then server.uid_expunge set else pure tt

  -- The commands of `move_uids`: MOVE where the server has it; else a copy, and then the deletion.
  unfoldable pub move_set : String → String → String → Step W ImapError (Unit {0})
  unfolding select_mailbox move_command copy_and_delete
  move_set mailbox set destination = do
    select_mailbox mailbox
    has_str ← server.capabilities
    if has_str "MOVE" then move_command set destination else copy_and_delete has_str set destination

  unfoldable pub move_uids : String → List ℕ → String → Step (Lane W) ImapError (Unit {0})
  unfolding uid_set validate_imap_text move_set
  move_uids mailbox uids destination = if is_empty uids then pure tt else do
    set ← lift (uid_set uids)
    lift (validate_imap_text destination)
    run_session_operation server.connect false (move_set mailbox set destination)
