-- ===== src/Storage/SyncPage.antt =====
-- `apply_mailbox_sync_page` of crates/quickmaild/src/storage.rs: one page of a mailbox and its
-- cursor, in one transaction.
pub mod Effects
pub mod Contents
pub mod Resets
use Prim.Native.Char.{code}
use Prim.Native.String.{len}
use quick_mail.Prelude.{
  ℕ, ℤ, String, Bool, true, false, not, ◌&&◌, ◌||◌, Option, none, some, List, [], ◌∷◌, ◌==◌,
  string_eq, pair_eq, any, all, ltb, nat_beq, if◌then◌else◌,
}
use quick_mail.Models.{MessageSummary}
use quick_mail.Models.Ids.{is_normalized_message_id}
use quick_mail.Provider.{MailboxSyncPage}
use quick_mail.Storage.Table.{find, upsert, delete, has}
use quick_mail.Storage.Schema.{
  MessageRow, SyncRow, Repository, message_key, mailbox_key, sync_key, account_key,
}
use quick_mail.Storage.Scope.{option_eq}
use quick_mail.Storage.Messages.{author_name, author_address, merge_summary}
use quick_mail.Storage.Serde.{Serde}
use quick_mail.Storage.Revision.{read_revision, bump_revision}
use quick_mail.Storage.Result.{Result, ok, err, sqlite, invalid_data, not_found, ◌>>=◌, ◌>>◌, guard}

-- `cursor.contains('\0')`.
unfoldable pub contains_nul : String → Bool
contains_nul String.[] = false
contains_nul (String.◌∷◌ c s) = nat_beq (code c) 0 || contains_nul s

unfoldable pub sync_cursor_is_invalid : Option String → Bool
unfolding contains_nul
sync_cursor_is_invalid none = false
sync_cursor_is_invalid (some cursor) =
    cursor == "" || (ltb 1024 (len cursor) || contains_nul cursor)

abbrev pub is_empty {ℓ} : {A : Type ℓ} → List A → Bool
is_empty [] = true
is_empty (x ∷ xs) = false

abbrev pub is_none {ℓ} : {A : Type ℓ} → Option A → Bool
is_none none = true
is_none (some a) = false

-- `UPDATE` and key of the row of a cursor.
abbrev pub merge_sync : SyncRow → SyncRow → SyncRow
merge_sync old new = record new { account_id = old.account_id; mailbox_id = old.mailbox_id }

module _ {Text : Type 0} where
  -- `WHERE account_id=? AND mailbox_id=?`.
  unfoldable pub in_mailbox : String → String → MessageRow Text → Bool
  in_mailbox account_id mailbox_id row =
      row.account_id == account_id && option_eq row.mailbox_id (some mailbox_id)

  -- A cached message that the page removes lies in the page's mailbox.
  unfoldable pub removal_is_local : String → String → Repository Text → String → Bool
  unfolding in_mailbox
  removal_is_local account_id mailbox_id r id = elim (find message_key id r.messages) [
    | none ↦ true
    | some row ↦ in_mailbox account_id mailbox_id row
  ]

  -- `if page.reset`: the rows and the cursor of the mailbox go.
  unfoldable pub reset_mailbox : String → String → Bool → Repository Text → Repository Text
  unfolding in_mailbox
  reset_mailbox account_id mailbox_id false r = r
  reset_mailbox account_id mailbox_id true r = record r {
    messages = delete (in_mailbox account_id mailbox_id) r.messages;
    sync_state =
        delete (λ row. row.account_id == account_id && row.mailbox_id == mailbox_id) r.sync_state;
  }

  unfoldable pub delete_removed :
      String → String → List String → List (MessageRow Text) → List (MessageRow Text)
  unfolding in_mailbox
  delete_removed account_id mailbox_id [] rows = rows
  delete_removed account_id mailbox_id (id ∷ ids) rows =
      delete_removed account_id mailbox_id ids
        (delete (λ row. row.id == id && in_mailbox account_id mailbox_id row) rows)

  unfoldable pub store_cursor :
      ℤ → String → String → Option String → Repository Text → Repository Text
  store_cursor now account_id mailbox_id none r = r
  store_cursor now account_id mailbox_id (some cursor) r = record r {
    sync_state =
        upsert sync_key merge_sync
          (record {
            account_id = account_id;
            mailbox_id = mailbox_id;
            cursor = cursor;
            updated_at = now;
          })
          r.sync_state;
  }

module _ {Json : Type 0} where
  unfoldable pub message_is_local : String → String → MessageSummary Json → Bool
  message_is_local account_id mailbox_id m =
      m.account_id == account_id
      && (option_eq m.mailbox_id (some mailbox_id) && is_normalized_message_id account_id m.id)

  unfoldable pub removal_is_valid : String → List (MessageSummary Json) → String → Bool
  removal_is_valid account_id messages id =
      is_normalized_message_id account_id id && not (any (λ m. m.id == id) messages)

  -- Nothing to store.
  unfoldable pub is_no_op : MailboxSyncPage Json → Bool
  is_no_op page =
      not page.reset
      && (is_empty page.messages && (is_empty page.removed_message_ids && is_none page.cursor))

module _ {Json Text : Type 0} (serde : Serde Json Text) where
  unfoldable pub summary_to_row : ℤ → MessageSummary Json → MessageRow Text
  summary_to_row now s = record {
    id = s.id;
    account_id = s.account_id;
    mailbox_id = s.mailbox_id;
    thread_id = s.thread_id;
    subject = s.subject;
    author_name = author_name s.author;
    author_address = author_address s.author;
    timestamp_ms = s.timestamp;
    is_read = s.is_read;
    starred = s.starred;
    snippet = s.snippet;
    has_attachments = s.has_attachments;
    labels_json = serde.labels.to_string s.labels;
    provider_data_json = serde.value.to_string s.provider_data;
    to_json = serde.empty_array;
    cc_json = serde.empty_array;
    bcc_json = serde.empty_array;
    body_text = none;
    body_html = none;
    attachments_json = serde.empty_array;
    body_loaded = false;
    updated_at = now;
  }

  unfoldable pub upsert_each_summary :
      ℤ → List (MessageSummary Json) → Repository Text → Result (Repository Text)
  unfolding summary_to_row merge_summary
  upsert_each_summary now [] r = ok r
  upsert_each_summary now (s ∷ summaries) r = do
    guard (has account_key s.account_id r.accounts) sqlite
    upsert_each_summary now summaries
        (record r { messages = upsert message_key merge_summary (summary_to_row now s) r.messages })

  -- The page has been checked: the transaction itself.
  unfoldable pub apply_checked_page :
      ℤ → String → String → MailboxSyncPage Json → Repository Text → Result (Repository Text × ℕ)
  apply_checked_page now account_id mailbox_id page r = do
    guard (has mailbox_key (account_id, mailbox_id) r.mailboxes) not_found
    guard (all (removal_is_local account_id mailbox_id r) page.removed_message_ids)
        (invalid_data "mailbox sync removal targets a different account or mailbox")
    let cleared = reset_mailbox account_id mailbox_id page.reset r
    let kept = delete_removed account_id mailbox_id page.removed_message_ids cleared.messages
    filled ← upsert_each_summary now page.messages (record cleared { messages = kept })
    bump_revision (store_cursor now account_id mailbox_id page.cursor filled)

  unfoldable pub apply_mailbox_sync_page :
      ℤ → String → String → MailboxSyncPage Json → Repository Text → Result (Repository Text × ℕ)
  apply_mailbox_sync_page now account_id mailbox_id page r = do
    guard (all (message_is_local account_id mailbox_id) page.messages)
        (invalid_data "mailbox sync page contains a message outside its account or mailbox")
    guard (all (removal_is_valid account_id page.messages) page.removed_message_ids)
        (invalid_data "mailbox sync removal is outside its account or also returned as present")
    guard (not (sync_cursor_is_invalid page.cursor)) (invalid_data "mailbox sync cursor is invalid")
    if is_no_op page
        then read_revision r >>= (λ n. ok (r, n))
        else apply_checked_page now account_id mailbox_id page r
