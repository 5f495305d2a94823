-- ===== src/Storage/Database.antt =====
-- `Database` of crates/quickmaild/src/storage.rs: the worker thread that runs the jobs of all
-- callers one after another on its one `Repository`.
pub mod Keeping
pub mod Growth
pub mod Histories
pub mod Final
use quick_mail.Prelude.{ℕ, ℤ, String, Bool, Option, List, [], ◌∷◌}
use quick_mail.Models.{Account, Mailbox, Message, Task, CalendarEvent, DateTime}
use quick_mail.Provider.{MailAction, OutgoingMessage, MailboxSyncPage}
use quick_mail.Storage.Schema.{Repository}
use quick_mail.Storage.Serde.{Serde}
use quick_mail.Storage.Accounts.{
  upsert_account_config, update_account_counts, set_account_auth_state, remove_account,
}
use quick_mail.Storage.Mailboxes.{upsert_mailboxes}
use quick_mail.Storage.Messages.{upsert_messages_with_body_state}
use quick_mail.Storage.SyncPage.{apply_mailbox_sync_page}
use quick_mail.Storage.Operations.{
  Outcome, finish_operation, defer_operation, apply_mail_action, finish_mail_action, queue_outgoing,
  queue_agenda_operation,
}
use quick_mail.Storage.Agenda.{
  upsert_task, complete_task, delete_task, upsert_events, delete_event, commit_agenda_task_upsert,
  commit_agenda_task_delete, commit_agenda_event_upsert, commit_agenda_event_delete,
  replace_remote_agenda,
}
use quick_mail.Storage.Drafts.{save_draft, delete_draft}
use quick_mail.Storage.Result.{Result, ok, err, ◌>>=◌}

-- The tables of a new database, as `migrate` leaves them.
abbrev pub empty_repository : {Text : Type 0} → Repository Text
empty_repository = record {
  revision = 0;
  accounts = [];
  mailboxes = [];
  sync_state = [];
  messages = [];
  tasks = [];
  events = [];
  operations = [];
  drafts = [];
}

-- The methods of `Database` that write, with the time and the new id that each of them draws.
pub data Call (Json : Type 0) : Type 0 where
  upsert_account : ℤ → Account → Json → Call Json
  update_counts : ℤ → String → ℕ → ℕ → Call Json
  set_auth_state : ℤ → String → String → Option String → Call Json
  remove_account_call : String → Call Json
  upsert_mailboxes_call : List Mailbox → Call Json
  apply_sync_page : ℤ → String → String → MailboxSyncPage Json → Call Json
  upsert_messages_call : ℤ → List (Message Json) → Bool → Call Json
  apply_action : ℤ → String → MailAction → Call Json
  finish : ℤ → String → Outcome → Call Json
  finish_action : ℤ → String → MailAction → Outcome → Call Json
  queue_mail : ℤ → String → OutgoingMessage → Call Json
  save_draft_call : ℤ → String → Option String → OutgoingMessage → Call Json
  delete_draft_call : String → Call Json
  upsert_task_call : Task → Call Json
  complete_task_call : String → Bool → Call Json
  delete_task_call : String → Call Json
  upsert_events_call : List CalendarEvent → Call Json
  delete_event_call : String → Call Json
  replace_agenda : String → DateTime → DateTime → List Task → List CalendarEvent → Call Json
  queue_agenda : ℤ → String → String → String → Json → Call Json
  defer : ℤ → String → String → Call Json
  commit_task_upsert : ℤ → String → Task → Call Json
  commit_task_delete : ℤ → String → String → Call Json
  commit_event_upsert : ℤ → String → CalendarEvent → Call Json
  commit_event_delete : ℤ → String → String → Call Json

abbrev pub repository_of :
    {Text A : Type 0} → Result (Repository Text × A) → Result (Repository Text)
repository_of m = m >>= λ p. ok p.0

abbrev pub repository_of₃ :
    {Text A B : Type 0} → Result (Repository Text × A × B) → Result (Repository Text)
repository_of₃ m = m >>= λ p. ok p.0

-- What `Database::call` returns is left where it has no repository.
abbrev pub committed :
    {Text : Type 0} → Repository Text → Result (Repository Text) → Repository Text
committed r (ok r') = r'
committed r (err e) = r

module _ {Json Text : Type 0} (serde : Serde Json Text) where
  unfoldable pub run : Call Json → Repository Text → Result (Repository Text)
  run (upsert_account now a config) r = repository_of (upsert_account_config serde now a config r)
  run (update_counts now id unread total) r =
      repository_of (update_account_counts now id unread total r)
  run (set_auth_state now id state e) r = repository_of (set_account_auth_state now id state e r)
  run (remove_account_call id) r = repository_of (remove_account serde id r)
  run (upsert_mailboxes_call mailboxes) r = repository_of (upsert_mailboxes mailboxes r)
  run (apply_sync_page now a m page) r =
      repository_of (apply_mailbox_sync_page serde now a m page r)
  run (upsert_messages_call now messages loaded) r =
      repository_of (upsert_messages_with_body_state serde now messages loaded r)
  run (apply_action now uuid action) r = repository_of₃ (apply_mail_action serde now uuid action r)
  run (finish now id outcome) r = finish_operation now id outcome r
  run (finish_action now id action outcome) r =
      repository_of (finish_mail_action serde now id action outcome r)
  run (queue_mail now uuid message) r = repository_of₃ (queue_outgoing serde now uuid message r)
  run (save_draft_call now uuid id message) r =
      repository_of₃ (save_draft serde now uuid id message r)
  run (delete_draft_call id) r = repository_of (delete_draft id r)
  run (upsert_task_call t) r = repository_of (upsert_task t r)
  run (complete_task_call id finished) r = repository_of (complete_task id finished r)
  run (delete_task_call id) r = repository_of (delete_task id r)
  run (upsert_events_call events) r = repository_of (upsert_events events r)
  run (delete_event_call id) r = repository_of (delete_event id r)
  run (replace_agenda id start end tasks events) r =
      repository_of (replace_remote_agenda id start end tasks events r)
  run (queue_agenda now uuid kind id payload) r =
      repository_of₃ (queue_agenda_operation serde now uuid kind id payload r)
  run (defer now id e) r = defer_operation now id e r
  run (commit_task_upsert now id t) r = repository_of (commit_agenda_task_upsert now id t r)
  run (commit_task_delete now id task_id) r =
      repository_of (commit_agenda_task_delete now id task_id r)
  run (commit_event_upsert now id e) r = repository_of (commit_agenda_event_upsert now id e r)
  run (commit_event_delete now id event_id) r =
      repository_of (commit_agenda_event_delete now id event_id r)

  -- The worker's loop: a job that fails has dropped its transaction.
  unfoldable pub serve : List (Call Json) → Repository Text → Repository Text
  unfolding run
  serve [] r = r
  serve (c ∷ calls) r = serve calls (committed r (run c r))
