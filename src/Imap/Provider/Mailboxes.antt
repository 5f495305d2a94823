-- ===== src/Imap/Provider/Mailboxes.antt =====
-- `apply_action`, `list_mailboxes` and `list_messages` of `ImapSmtpProvider`, and the mailboxes with
-- a special use that it remembers.
use Prim.Native.String.{◌++◌}
use quick_mail.Prelude.{
  ℕ, ◌+◌, String, Bool, true, false, Option, none, some, List, [], ◌∷◌, map, length, take, ltb,
  nat_beq, string_eq, if◌then◌else◌,
}
use quick_mail.Imap.Cursor.{SelectedMailbox, UidCursor, show_cursor}
use quick_mail.Imap.Error.{Reply, done, fail, map_err, provider_error, ok_or}
use quick_mail.Imap.Provider.{
  ImapMailboxInfo, ImapTransport, Libraries, provide, clamp_limit, imap_message_summary,
  previous_cursor,
}
use quick_mail.Imap.Search.{last_or}
use quick_mail.Imap.Session.{Step, ◌>>=◌, ◌>>◌, pure, lift}
use quick_mail.Models.{Mailbox, MailboxRole, inbox, drafts, sent, archive, trash, spam, other}
use quick_mail.Provider.{
  ProviderError, MailAction, mark_read, star, move, set_labels, MessageQuery, MessagePage,
}
use quick_mail.Imap.Provider.Actions.{store_flag, move_to}

-- The mailboxes for archived and deleted messages that the server has named.
pub record SpecialUse : Type 0 where
  pub archive_mailbox : Option String
  pub trash_mailbox : Option String

-- What a provider keeps besides its connection.
pub record ProviderState (S : Type 0) : Type 0 where
  pub special_use : SpecialUse
  pub connection : S

abbrev role_beq : MailboxRole → MailboxRole → Bool
role_beq inbox inbox = true
role_beq drafts drafts = true
role_beq sent sent = true
role_beq archive archive = true
role_beq trash trash = true
role_beq spam spam = true
role_beq other other = true
role_beq _ _ = false

abbrev has_role : MailboxRole → Option MailboxRole → Bool
has_role role none = false
has_role role (some given) = role_beq given role

unfoldable pub special_use_mailbox : List ImapMailboxInfo → MailboxRole → Option String
special_use_mailbox [] role = none
special_use_mailbox (mailbox ∷ mailboxes) role =
    let rest = special_use_mailbox mailboxes role in
    if has_role role mailbox.role then some mailbox.name else rest

unfoldable pub remember_special_use : List ImapMailboxInfo → SpecialUse
unfolding special_use_mailbox
remember_special_use mailboxes = record {
  archive_mailbox = special_use_mailbox mailboxes archive;
  trash_mailbox = special_use_mailbox mailboxes trash;
}

abbrev cached_mailbox : SpecialUse → MailboxRole → Option String
cached_mailbox known archive = known.archive_mailbox
cached_mailbox known trash = known.trash_mailbox
cached_mailbox known _ = none

-- `{role:?}`.
abbrev role_name : MailboxRole → String
role_name inbox = "Inbox"
role_name drafts = "Drafts"
role_name sent = "Sent"
role_name archive = "Archive"
role_name trash = "Trash"
role_name spam = "Spam"
role_name other = "Other"

abbrev or_else {ℓ} : {A : Type ℓ} → Option A → Option A → Option A
or_else none b = b
or_else (some a) b = some a

module _ {S : Type 0} where
  abbrev with_special_use :
      {A : Type 0}
      → SpecialUse
      → Reply ProviderError A × S
      → Reply ProviderError A × ProviderState S
  with_special_use known (reply, s) = (reply, record { special_use = known; connection = s })

  -- A step on the connection alone.
  abbrev pub on_connection :
      {A : Type 0} → Step S ProviderError A → Step (ProviderState S) ProviderError A
  on_connection m p = with_special_use p.special_use (m p.connection)

  abbrev remember : List ImapMailboxInfo → Step (ProviderState S) ProviderError (Unit {0})
  remember mailboxes p = (done tt, record p { special_use = remember_special_use mailboxes })

  module _ (transport : ImapTransport S) where
    unfoldable pub discover_mailbox :
        MailboxRole → Option String → Step (ProviderState S) ProviderError String
    unfolding special_use_mailbox
    discover_mailbox role configured = do
      mailboxes ← on_connection (provide transport.list_mailboxes)
      remember mailboxes
      lift (
          ok_or (ProviderError.unsupported (role_name role ++ " mailbox is not available"))
            (or_else (special_use_mailbox mailboxes role) configured))

    -- A mailbox that the server named before, else one that it names now, else the configured one.
    unfoldable pub action_mailbox :
        MailboxRole → Option String → Step (ProviderState S) ProviderError String
    unfolding discover_mailbox
    action_mailbox role configured p = elim (cached_mailbox p.special_use role) [
      | some mailbox ↦ (done mailbox, p)
      | none ↦ discover_mailbox role configured p
    ]

    -- The configured mailboxes for archived and deleted messages come after the account's id.
    unfoldable pub apply_action :
        String
        → Option String
        → Option String
        → MailAction
        → Step (ProviderState S) ProviderError (Unit {0})
    unfolding action_mailbox store_flag move_to
    apply_action account_id archive_mailbox trash_mailbox (mark_read message_ids is_read) =
        on_connection (store_flag account_id transport message_ids "\\Seen" is_read)
    apply_action account_id archive_mailbox trash_mailbox (star message_ids starred) =
        on_connection (store_flag account_id transport message_ids "\\Flagged" starred)
    apply_action account_id archive_mailbox trash_mailbox (MailAction.archive message_ids) = do
      destination ← action_mailbox archive archive_mailbox
      on_connection (move_to account_id transport message_ids destination)
    apply_action account_id archive_mailbox trash_mailbox (MailAction.trash message_ids) = do
      destination ← action_mailbox trash trash_mailbox
      on_connection (move_to account_id transport message_ids destination)
    apply_action account_id archive_mailbox trash_mailbox (move message_ids mailbox_id) =
        on_connection (move_to account_id transport message_ids mailbox_id)
    apply_action account_id archive_mailbox trash_mailbox (set_labels message_ids labels) =
        lift (fail (ProviderError.unsupported "Gmail labels are not available over generic IMAP"))

    abbrev mailbox_of : String → ImapMailboxInfo → Mailbox
    mailbox_of account_id mailbox = record {
      id = mailbox.name;
      account_id = account_id;
      name = mailbox.name;
      role = mailbox.role;
      unread = mailbox.unread;
      total = mailbox.total;
    }

    unfoldable pub list_mailboxes : String → Step (ProviderState S) ProviderError (List Mailbox)
    unfolding remember_special_use
    list_mailboxes account_id = do
      mailboxes ← on_connection (provide transport.list_mailboxes)
      remember mailboxes
      pure (map (mailbox_of account_id) mailboxes)

    -- Where the page starts: at a cursor of the present numbering, else at the newest message.
    abbrev start_of : SelectedMailbox → Option UidCursor → ℕ
    start_of selected none = 0
    start_of selected (some cursor) =
        if nat_beq cursor.uid_validity selected.uid_validity then cursor.last_uid else 0

    -- `query.mailbox_id.as_deref().unwrap_or("INBOX")`.
    abbrev or_inbox : Option String → String
    or_inbox none = "INBOX"
    or_inbox (some mailbox) = mailbox

    unfoldable pub list_messages :
        {Json : Type 0}
        → Libraries Json
        → String
        → MessageQuery
        → Step S ProviderError (MessagePage Json)
    unfolding previous_cursor imap_message_summary show_cursor
    list_messages libraries account_id query = do
      let mailbox = or_inbox query.mailbox_id
      selected ← provide (transport.select mailbox)
      previous ← lift (map_err provider_error (previous_cursor query.cursor))
      let cursor = start_of selected previous
      let limit = clamp_limit query.limit
      found ←
          provide (transport.search_uids mailbox cursor query.search query.unread_only (limit + 1))
      let uids = take limit found
      envelopes ← provide (transport.fetch_envelopes mailbox uids)
      pure (record {
        messages =
            map (imap_message_summary libraries account_id mailbox selected.uid_validity) envelopes;
        next_cursor =
            if ltb limit (length found)
            then some (
                show_cursor
                  (record { uid_validity = selected.uid_validity; last_uid = last_or cursor uids }))
            else none;
      })
