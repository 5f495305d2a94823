-- ===== src/Imap/Provider/Actions.antt =====
-- The checks of the ids of a mail action in `ImapSmtpProvider`, and what it asks of the transport.
pub mod Ids
use Prim.Native.String.{◌++◌}
use quick_mail.Prelude.{
  ℕ, zero, suc, ◌+◌, String, Bool, true, false, not, ◌&&◌, ◌||◌, Option, none, some, List, [], ◌∷◌,
  map, length, take, ltb, nat_beq, ◌==◌, string_eq, if◌then◌else◌,
}
use quick_mail.Imap.Cursor.{SelectedMailbox, UidCursor, parse_cursor, show_cursor}
use quick_mail.Imap.Error.{Reply, done, fail, ImapError, map_err, provider_error, ok_or}
use quick_mail.Imap.Provider.{
  ImapMailboxInfo, ImapTransport, Libraries, provide, provided, clamp_limit, imap_message_summary,
  previous_cursor,
}
use quick_mail.Imap.Search.{last_or}
use quick_mail.Imap.Session.{Step, after, ◌>>=◌, ◌>>◌, pure, lift}
use quick_mail.Imap.StableId.{StableImapId, parse_stable_id, provider_native_id}
use quick_mail.Models.{Mailbox, MailboxRole, inbox, drafts, sent, archive, trash, spam, other}
use quick_mail.Provider.{
  ProviderError, MailAction, mark_read, star, move, set_labels, MessageQuery, MessagePage,
}

-- `native_id = provider_native_id(...)?; StableImapId::parse(native_id).map_err(...)?`.
unfoldable pub checked_id : String → String → Reply ProviderError StableImapId
unfolding provider_native_id parse_stable_id provider_error
checked_id account_id id = elim (provider_native_id account_id id) [
  | none ↦ fail ProviderError.not_found
  | some native_id ↦ map_err provider_error (parse_stable_id native_id)
]

-- What the loop of `validate_ids` knows: the mailbox and the numbering of the ids before.
abbrev Known : Type 0
Known = Option (String × ℕ)

abbrev differs : Known → StableImapId → Bool
differs none id = false
differs (some (mailbox, validity)) id =
    not (mailbox == id.mailbox) || not (nat_beq validity id.uid_validity)

abbrev onto_uids : ℕ → Reply ProviderError (Known × List ℕ) → Reply ProviderError (Known × List ℕ)
onto_uids uid (done (known, uids)) = done (known, uid ∷ uids)
onto_uids uid (fail error) = fail error

-- The loop: the mailbox and the numbering that all ids share, and their UIDs in order.
unfoldable pub common_mailbox : String → List String → Known → Reply ProviderError (Known × List ℕ)
unfolding checked_id
common_mailbox account_id [] known = done (known, [])
common_mailbox account_id (id ∷ ids) known = elim (checked_id account_id id) [
  | fail error ↦ fail error
  | done parsed ↦
      if differs known parsed
      then fail (ProviderError.unsupported "one action cannot span IMAP mailboxes")
      else onto_uids parsed.uid
          (common_mailbox account_id ids (some (parsed.mailbox, parsed.uid_validity)))
]

module _ {S : Type 0} (account_id : String) (transport : ImapTransport S) where
  unfoldable pub validate_ids : List String → Step S ProviderError (String × List ℕ)
  unfolding common_mailbox
  validate_ids message_ids = do
    (known, uids) ← lift (common_mailbox account_id message_ids none)
    (mailbox, validity) ← lift (ok_or (ProviderError.other "message list is empty") known)
    selected ← provide (transport.select mailbox)
    if nat_beq selected.uid_validity validity
        then pure (mailbox, uids)
        else lift (
            fail (
              ProviderError.temporary
                "mailbox UIDVALIDITY changed; a full mailbox resync is required"))

  -- `mark_read` and `star`: one flag, added or removed.
  unfoldable pub store_flag : List String → String → Bool → Step S ProviderError (Unit {0})
  unfolding validate_ids
  store_flag message_ids flag is_set = do
    (mailbox, uids) ← validate_ids message_ids
    let flags = flag ∷ []
    provide (
        transport.store_flags mailbox uids (if is_set then flags else [])
          (if is_set then [] else flags))

  unfoldable pub move_to : List String → String → Step S ProviderError (Unit {0})
  unfolding validate_ids
  move_to message_ids destination = do
    (mailbox, uids) ← validate_ids message_ids
    provide (transport.move_uids mailbox uids destination)
