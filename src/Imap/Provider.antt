-- ===== src/Imap/Provider.antt =====
-- `ImapSmtpProvider` of crates/quickmaild/src/providers/imap_smtp.rs: the operations that the daemon
-- calls, over the interface of a transport.
pub mod Sync
pub mod Actions
pub mod Mailboxes
pub mod Accepted
use Prim.Native.Nat.{max, min}
use Prim.Native.String.{◌++◌}
use quick_mail.Prelude.{
  ℕ, zero, suc, String, Bool, true, false, not, ◌&&◌, ◌||◌, Option, none, some, List, [], ◌∷◌, map,
  any, filter, ◌++◌ as ◌++ᴸ◌, length, take, ltb, nat_beq, ◌==◌, string_eq, if◌then◌else◌,
}
use quick_mail.Imap.Cursor.{
  SelectedMailbox, UidCursor, UidSyncPlan, parse_cursor, show_cursor, uid_sync_plan,
}
use quick_mail.Imap.Error.{Reply, done, fail, ImapError, map_err, provider_error}
use quick_mail.Imap.Search.{IncrementalUidPage, dedup, last_or}
use quick_mail.Imap.Session.{Step, after, ◌>>=◌, ◌>>◌, pure, lift}
use quick_mail.Imap.StableId.{StableImapId, parse_stable_id, show_stable_id, provider_native_id}
use quick_mail.Imap.Threads.{imap_thread_id, imap_singleton_thread_id}
use quick_mail.Models.{Account, Address, DateTime, Mailbox, MailboxRole, MessageSummary}
use quick_mail.Models.Ids.{normalized_message_id, strip_prefix}
use quick_mail.Provider.{
  ProviderError, MessageQuery, MessagePage, MailboxSyncQuery, MailboxSyncPage,
}
use quick_mail.Storage.Order.{order_by, text_ltb}

pub record ImapMailboxInfo : Type 0 where
  pub name : String
  pub role : Option MailboxRole
  pub unread : ℕ
  pub total : ℕ

-- `flags` is a BTreeSet of texts.
pub record ImapEnvelope : Type 0 where
  pub uid : ℕ
  pub subject : String
  pub author : Option Address
  pub timestamp : DateTime
  pub flags : List String
  pub snippet : String
  pub has_attachments : Bool
  pub message_id : Option String
  pub in_reply_to : List String
  pub references : List String

-- The trait `ImapTransport`, in so far as the operations here call it.
pub record ImapTransport (S : Type 0) : Type 0 where
  pub list_mailboxes : Step S ImapError (List ImapMailboxInfo)
  pub select : String → Step S ImapError SelectedMailbox
  pub search_uids : String → ℕ → Option String → Bool → ℕ → Step S ImapError (List ℕ)
  pub search_recent_uids : String → ℕ → ℕ → Step S ImapError (List ℕ)
  pub search_uids_since : String → ℕ → ℕ → ℕ → Step S ImapError IncrementalUidPage
  pub fetch_envelopes : String → List ℕ → Step S ImapError (List ImapEnvelope)
  pub store_flags : String → List ℕ → List String → List String → Step S ImapError (Unit {0})
  pub move_uids : String → List ℕ → String → Step S ImapError (Unit {0})

-- What other libraries compute: the uuid of a name, and the JSON of an envelope's ids.
pub record Libraries (Json : Type 0) : Type 0 where
  pub uuid_v5 : String → String
  pub envelope_json : ImapEnvelope → Json

abbrev pub provided : {S A : Type 0} → Reply ImapError A × S → Reply ProviderError A × S
provided (done a, s) = (done a, s)
provided (fail error, s) = (fail (provider_error error), s)

-- A call of the transport, with the error that the daemon sees.
abbrev pub provide : {S A : Type 0} → Step S ImapError A → Step S ProviderError A
provide m = λ s. provided (m s)

-- `limit.clamp(1, 500)`.
abbrev pub clamp_limit : ℕ → ℕ
clamp_limit limit = min (max limit 1) 500

-- Whether a flag starts with a backslash: those of the protocol do, the others are labels.
abbrev pub is_system_flag : String → Bool
is_system_flag flag = elim (strip_prefix "\\" flag) [ none ↦ false | some rest ↦ true ]

abbrev or_some {ℓ} : {A : Type ℓ} → A → Option A → Option A
or_some d none = some d
or_some d (some a) = some a

module _ {Json : Type 0} (libraries : Libraries Json) where
  unfoldable pub imap_message_summary : String → String → ℕ → ImapEnvelope → MessageSummary Json
  unfolding show_stable_id normalized_message_id imap_thread_id imap_singleton_thread_id
  imap_message_summary account_id mailbox uid_validity envelope =
      let native_id =
        show_stable_id
          (record { mailbox = mailbox; uid_validity = uid_validity; uid = envelope.uid }) in
      record {
        id = normalized_message_id account_id native_id;
        account_id = account_id;
        mailbox_id = some mailbox;
        thread_id = or_some (imap_singleton_thread_id libraries.uuid_v5 account_id native_id) (
            imap_thread_id libraries.uuid_v5 account_id envelope.message_id envelope.references
              envelope.in_reply_to);
        subject = envelope.subject;
        author = envelope.author;
        timestamp = envelope.timestamp;
        is_read = any (λ flag. flag == "\\Seen") envelope.flags;
        starred = any (λ flag. flag == "\\Flagged") envelope.flags;
        snippet = envelope.snippet;
        has_attachments = envelope.has_attachments;
        labels = filter (λ flag. not (is_system_flag flag)) envelope.flags;
        provider_data = libraries.envelope_json envelope;
      }

-- Of equal neighbours the first stays.
unfoldable pub dedup_texts_after : String → List String → List String
dedup_texts_after s [] = []
dedup_texts_after s (t ∷ ts) =
    let rest = dedup_texts_after t ts in if s == t then rest else t ∷ rest

unfoldable pub dedup_texts : List String → List String
unfolding dedup_texts_after
dedup_texts [] = []
dedup_texts (t ∷ ts) = t ∷ dedup_texts_after t ts

-- A BTreeSet of texts is its list in ascending order.
unfoldable pub text_set : List String → List String
unfolding dedup_texts
text_set texts = dedup_texts (order_by text_ltb texts)

-- The ids asked for whose UID the server did not return.
abbrev missing_ids : List (ℕ × String) → List ℕ → List String
missing_ids [] returned = []
missing_ids ((uid, message_id) ∷ requested) returned =
    let rest = missing_ids requested returned in
    if any (nat_beq uid) returned then rest else message_id ∷ rest

unfoldable pub missing_reconciled_message_ids : List (ℕ × String) → List ℕ → List String
unfolding text_set
missing_reconciled_message_ids requested returned = text_set (missing_ids requested returned)

-- The message's id on the server, if it is an id of the account.
unfoldable pub native_of : String → String → Option StableImapId
unfolding provider_native_id parse_stable_id
native_of account_id message_id = elim (provider_native_id account_id message_id) [
  | none ↦ none
  | some native_id ↦ elim (parse_stable_id native_id) [ done id ↦ some id | fail error ↦ none ]
]

-- Of the ids to reconcile, those of the mailbox and its present numbering, with their UIDs.
unfoldable pub reconciled : String → String → ℕ → List String → List (ℕ × String)
unfolding native_of
reconciled account_id mailbox uid_validity [] = []
reconciled account_id mailbox uid_validity (message_id ∷ ids) =
    let rest = reconciled account_id mailbox uid_validity ids in
    elim (native_of account_id message_id) [
      | none ↦ rest
      | some id ↦
          if id.mailbox == mailbox && nat_beq id.uid_validity uid_validity
          then (id.uid, message_id) ∷ rest
          else rest
    ]

abbrev is_some {ℓ} : {A : Type ℓ} → Option A → Bool
is_some none = false
is_some (some a) = true

-- `query.cursor.as_deref().map(UidCursor::parse).transpose()`.
unfoldable pub previous_cursor : Option String → Reply ImapError (Option UidCursor)
unfolding parse_cursor
previous_cursor none = done none
previous_cursor (some text) = elim (parse_cursor text) [
  | done cursor ↦ done (some cursor)
  | fail error ↦ fail error
]

-- The page that `sync_mailbox` returns.
unfoldable pub sync_page :
    {Json : Type 0}
    → Libraries Json
    → String
    → String
    → SelectedMailbox
    → UidSyncPlan
    → ℕ
    → List (ℕ × String)
    → List ImapEnvelope
    → MailboxSyncPage Json
unfolding missing_reconciled_message_ids imap_message_summary show_cursor
sync_page libraries account_id mailbox selected plan high_uid requested envelopes = record {
  messages =
      map (imap_message_summary libraries account_id mailbox selected.uid_validity) envelopes;
  removed_message_ids = missing_reconciled_message_ids requested (map (λ e. e.uid) envelopes);
  cursor =
      some (show_cursor (record { uid_validity = selected.uid_validity; last_uid = high_uid }));
  reset = plan.reset;
}

-- The ids are reconciled only where the cursor still holds.
abbrev pub requested_ids :
    String → MailboxSyncQuery → SelectedMailbox → UidSyncPlan → List (ℕ × String)
requested_ids account_id query selected plan =
    if is_some plan.after_uid
    then reconciled account_id query.mailbox_id selected.uid_validity query.reconcile_message_ids
    else []

module _ {S Json : Type 0} (libraries : Libraries Json) (account_id : String)
    (transport : ImapTransport S) where
  -- The UIDs of new messages, and how far the mailbox is then read.
  unfoldable pub new_uids : String → UidSyncPlan → ℕ → Step S ImapError (List ℕ × ℕ)
  new_uids mailbox plan limit = elim plan.after_uid [
    | some after_uid ↦ do
      page ← transport.search_uids_since mailbox after_uid plan.through_uid limit
      pure (page.uids, page.high_uid)
    | none ↦ do
      uids ← transport.search_recent_uids mailbox plan.through_uid limit
      pure (uids, plan.through_uid)
  ]

  -- The rest of `sync_mailbox`, once the mailbox is selected and the cursor is read.
  unfoldable pub sync_selected :
      MailboxSyncQuery → SelectedMailbox → UidSyncPlan → Step S ProviderError (MailboxSyncPage Json)
  unfolding new_uids sync_page reconciled
  sync_selected query selected plan = do
    (uids, high_uid) ← provide (new_uids query.mailbox_id plan (clamp_limit query.limit))
    let requested = requested_ids account_id query selected plan
    let fetch_uids = dedup (order_by ltb (uids ++ᴸ map (λ (uid, id). uid) requested))
    envelopes ← provide (transport.fetch_envelopes query.mailbox_id fetch_uids)
    confirmed ← provide (transport.select query.mailbox_id)
    if nat_beq confirmed.uid_validity selected.uid_validity
        then pure (
            sync_page libraries account_id query.mailbox_id selected plan high_uid requested
              envelopes)
        else lift (
            fail (
              ProviderError.temporary
                "mailbox UIDVALIDITY changed during synchronization; retry required"))

  unfoldable pub sync_mailbox : MailboxSyncQuery → Step S ProviderError (MailboxSyncPage Json)
  unfolding sync_selected previous_cursor uid_sync_plan
  sync_mailbox query =
      if not (query.account_id == account_id)
      then lift (fail (ProviderError.other "mailbox sync account does not match provider"))
      else do
        selected ← provide (transport.select query.mailbox_id)
        previous ← lift (map_err provider_error (previous_cursor query.cursor))
        sync_selected query selected (uid_sync_plan previous selected)
