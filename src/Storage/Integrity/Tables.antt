-- ===== src/Storage/Integrity/Tables.antt =====
-- A table that changes, and the integrity of the cache.
use quick_mail.Prelude.{ℕ, String, List, All, All-imp, string_eq, pair_eq, ◌+◌}
use quick_mail.Models.{Task, CalendarEvent}
use quick_mail.Storage.Table.{IsKeyed}
use quick_mail.Storage.Schema.{
  AccountRow, MailboxRow, SyncRow, MessageRow, OperationRow, DraftRow, Repository, account_key,
  mailbox_key, sync_key, message_key, task_key, event_key, operation_key, draft_key, fits_i64,
}
use quick_mail.Storage.Revision.{read_revision, bump_revision}
use quick_mail.Storage.Result.{
  Result, ok, ◌>>=◌, Ensures, Ensures-bind, Ensures-if, Ensures-Unit, returns, fails,
}
use quick_mail.Storage.Integrity.{
  IsSound, HasAccount, HasMailbox, IsOwned, IsTaskIndex, IsEventIndex,
}

module _ {Text : Type 0} (r : Repository Text) (h : IsSound r) where
  pub set_revision : (n : ℕ) → IsSound (record r { revision = n })
  set_revision n = assumption

  pub set_messages :
      (rows : List (MessageRow Text))
      → IsKeyed message_key rows
      → All (IsOwned r.accounts) rows
      → IsSound (record r { messages = rows })
  set_messages rows k o = assumption

  pub set_tasks :
      (rows : List Task)
      → IsKeyed task_key rows
      → IsTaskIndex rows
      → IsSound (record r { tasks = rows })
  set_tasks rows k u = assumption

  pub set_events :
      (rows : List CalendarEvent)
      → IsKeyed event_key rows
      → IsEventIndex rows
      → IsSound (record r { events = rows })
  set_events rows k u = assumption

  pub set_operations :
      (rows : List (OperationRow Text))
      → IsKeyed operation_key rows
      → IsSound (record r { operations = rows })
  set_operations rows k = assumption

  pub set_drafts :
      (rows : List (DraftRow Text))
      → IsKeyed draft_key rows
      → All (λ d. HasAccount r.accounts d.account_id) rows
      → IsSound (record r { drafts = rows })
  set_drafts rows k o = assumption

  pub set_sync_state :
      (rows : List SyncRow)
      → IsKeyed sync_key rows
      → All (λ s. HasMailbox r.mailboxes s.account_id s.mailbox_id) rows
      → IsSound (record r { sync_state = rows })
  set_sync_state rows k o = assumption

  -- Mailboxes may be added and changed.
  pub set_mailboxes :
      (rows : List MailboxRow)
      → IsKeyed mailbox_key rows
      → All (λ m. HasAccount r.accounts m.account_id) rows
      → ((a m : String) → HasMailbox r.mailboxes a m → HasMailbox rows a m)
      → IsSound (record r { mailboxes = rows })
  set_mailboxes rows k o more =
      let sync : All (λ s. HasMailbox rows s.account_id s.mailbox_id) r.sync_state =
        All-imp _ _ r.sync_state (λ s owned. more s.account_id s.mailbox_id owned) h.sync_owned in
      assumption

  -- Accounts may be added and changed.
  pub set_accounts :
      (rows : List (AccountRow Text))
      → IsKeyed account_key rows
      → ((a : String) → HasAccount r.accounts a → HasAccount rows a)
      → IsSound (record r { accounts = rows })
  set_accounts rows k more = record {
    accounts_keyed = k;
    mailboxes_keyed = h.mailboxes_keyed;
    sync_keyed = h.sync_keyed;
    messages_keyed = h.messages_keyed;
    tasks_keyed = h.tasks_keyed;
    events_keyed = h.events_keyed;
    operations_keyed = h.operations_keyed;
    drafts_keyed = h.drafts_keyed;
    mailboxes_owned =
        All-imp _ _ r.mailboxes (λ m owned. more m.account_id owned) h.mailboxes_owned;
    sync_owned = h.sync_owned;
    messages_owned =
        All-imp _ _ r.messages (λ m owned. (more m.account_id owned.0, owned.1)) h.messages_owned;
    drafts_owned = All-imp _ _ r.drafts (λ d owned. more d.account_id owned) h.drafts_owned;
    tasks_external = h.tasks_external;
    events_external = h.events_external;
  }

-- The repository of a result keeps its integrity.
abbrev pub Sound : {Text A : Type 0} → Result (Repository Text × A) → Type 0
Sound = Ensures (λ p. IsSound p.0)

module _ {Text : Type 0} where
  pub bump_revision-Sound : (r : Repository Text) → IsSound r → Sound (bump_revision r)
  unfolding bump_revision
  bump_revision-Sound r h =
      Ensures-if (fits_i64 (r.revision + 1)) (λ _. returns _ (set_revision r h (r.revision + 1)))
        (λ _. fails _)

  pub read_revision-Sound :
      (r : Repository Text) → IsSound r → Sound (read_revision r >>= λ n. ok (r, n))
  read_revision-Sound r h = Ensures-bind (Ensures-Unit (read_revision r)) (λ n _. returns (r, n) h)
