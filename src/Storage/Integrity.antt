-- ===== src/Storage/Integrity.antt =====
-- The integrity of the cache: what the schema of crates/quickmaild/src/storage.rs declares
-- (primary keys, references, unique indexes), and that message ids carry their account.
pub mod Tables
pub mod Messages
pub mod SyncPages
pub mod Agenda
pub mod AgendaCalls
pub mod Accounts
pub mod Operations
pub mod Calls
use quick_mail.Prelude.{ℕ, String, Bool, true, false, ◌≡◌, List, All, any, string_eq, pair_eq}
use quick_mail.Models.{Task, CalendarEvent}
use quick_mail.Models.Ids.{is_normalized_message_id}
use quick_mail.Storage.Table.{IsKeyed, has}
use quick_mail.Storage.Table.Index.{IsIndex}
use quick_mail.Storage.Schema.{
  AccountRow, MailboxRow, SyncRow, MessageRow, DraftRow, Repository, account_key, mailbox_key,
  sync_key, message_key, task_key, event_key, operation_key, draft_key,
}
use quick_mail.Storage.Agenda.{task_conflict, event_conflict}

abbrev pub HasMailbox : List MailboxRow → String → String → Type 0
HasMailbox mailboxes account_id id = has mailbox_key (account_id, id) mailboxes ≡ true

-- No two rows have the same external id.
abbrev pub IsTaskIndex : List Task → Type 0
IsTaskIndex = IsIndex task_conflict

abbrev pub IsEventIndex : List CalendarEvent → Type 0
IsEventIndex = IsIndex event_conflict

module _ {Text : Type 0} where
  -- The account of the name is in the table.
  abbrev pub HasAccount : List (AccountRow Text) → String → Type 0
  HasAccount accounts id = has account_key id accounts ≡ true

  -- A message belongs to an account of the table, and its id begins with that account.
  abbrev pub IsOwned : List (AccountRow Text) → MessageRow Text → Type 0
  IsOwned accounts m =
      HasAccount accounts m.account_id × (is_normalized_message_id m.account_id m.id ≡ true)

  pub record IsSound (r : Repository Text) : Type 0 where
    pub accounts_keyed : IsKeyed account_key r.accounts
    pub mailboxes_keyed : IsKeyed mailbox_key r.mailboxes
    pub sync_keyed : IsKeyed sync_key r.sync_state
    pub messages_keyed : IsKeyed message_key r.messages
    pub tasks_keyed : IsKeyed task_key r.tasks
    pub events_keyed : IsKeyed event_key r.events
    pub operations_keyed : IsKeyed operation_key r.operations
    pub drafts_keyed : IsKeyed draft_key r.drafts
    pub mailboxes_owned : All (λ m. HasAccount r.accounts m.account_id) r.mailboxes
    pub sync_owned : All (λ s. HasMailbox r.mailboxes s.account_id s.mailbox_id) r.sync_state
    pub messages_owned : All (IsOwned r.accounts) r.messages
    pub drafts_owned : All (λ d. HasAccount r.accounts d.account_id) r.drafts
    pub tasks_external : IsTaskIndex r.tasks
    pub events_external : IsEventIndex r.events
