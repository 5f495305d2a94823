-- ===== src/Storage/Integrity/Calls.antt =====
-- Whatever callers ask of the database, in whatever order, the cache keeps its integrity.
use quick_mail.Prelude.{List, [], ◌∷◌}
use quick_mail.Storage.Table.{IsKeyed}
use quick_mail.Storage.Schema.{Repository}
use quick_mail.Storage.Serde.{Serde}
use quick_mail.Storage.Database.{
  Call, upsert_account, update_counts, set_auth_state, remove_account_call, upsert_mailboxes_call,
  apply_sync_page, upsert_messages_call, apply_action, finish, finish_action, queue_mail,
  save_draft_call, delete_draft_call, upsert_task_call, complete_task_call, delete_task_call,
  upsert_events_call, delete_event_call, replace_agenda, queue_agenda, defer, commit_task_upsert,
  commit_task_delete, commit_event_upsert, commit_event_delete, run, serve, committed,
  empty_repository, repository_of,
}
use quick_mail.Storage.Result.{Result, ok, ◌>>=◌, Ensures, Ensures-bind, returns, fails}
use quick_mail.Storage.Integrity.{IsSound}
use quick_mail.Storage.Integrity.Tables.{Sound}
use quick_mail.Storage.Integrity.Messages.{upsert_messages_with_body_state-Sound}
use quick_mail.Storage.Integrity.SyncPages.{apply_mailbox_sync_page-Sound}
use quick_mail.Storage.Integrity.AgendaCalls
use quick_mail.Storage.Integrity.Accounts
use quick_mail.Storage.Integrity.Operations

module _ {Text : Type 0} where
  only_repository :
      {A : Type 0} {m : Result (Repository Text × A)} → Sound m → Ensures IsSound (repository_of m)
  only_repository h = Ensures-bind h (λ p sound. returns _ sound)

  only_repository₃ :
      {A B : Type 0} {m : Result (Repository Text × A × B)}
      → Ensures (λ p. IsSound p.0) m
      → Ensures IsSound (m >>= λ p. ok p.0)
  only_repository₃ h = Ensures-bind h (λ p sound. returns _ sound)

  committed-IsSound :
      (r : Repository Text) {m : Result (Repository Text)}
      → IsSound r
      → Ensures IsSound m
      → IsSound (committed r m)
  committed-IsSound r h (returns r' h') = h'
  committed-IsSound r h (fails e) = h

  pub empty-IsSound : IsSound {Text = Text} empty_repository
  unfolding IsKeyed
  empty-IsSound = record {
    accounts_keyed = tt;
    mailboxes_keyed = tt;
    sync_keyed = tt;
    messages_keyed = tt;
    tasks_keyed = tt;
    events_keyed = tt;
    operations_keyed = tt;
    drafts_keyed = tt;
    mailboxes_owned = tt;
    sync_owned = tt;
    messages_owned = tt;
    drafts_owned = tt;
    tasks_external = tt;
    events_external = tt;
  }

module _ {Json Text : Type 0} (serde : Serde Json Text) where
  run-IsSound : (c : Call Json) (r : Repository Text) → IsSound r → Ensures IsSound (run serde c r)
  unfolding run
  run-IsSound (upsert_account now a config) r h =
      only_repository (Accounts.upsert_account_config-Sound serde now a config r h)
  run-IsSound (update_counts now id unread total) r h =
      only_repository (Accounts.update_account_counts-Sound now id unread total r h)
  run-IsSound (set_auth_state now id state e) r h =
      only_repository (Accounts.set_account_auth_state-Sound now id state e r h)
  run-IsSound (remove_account_call id) r h =
      only_repository (Accounts.remove_account-Sound serde id r h)
  run-IsSound (upsert_mailboxes_call mailboxes) r h =
      only_repository (Accounts.upsert_mailboxes-Sound mailboxes r h)
  run-IsSound (apply_sync_page now a m page) r h =
      only_repository (apply_mailbox_sync_page-Sound serde now a m page r h)
  run-IsSound (upsert_messages_call now messages loaded) r h =
      only_repository (upsert_messages_with_body_state-Sound serde now messages loaded r h)
  run-IsSound (apply_action now uuid action) r h =
      only_repository₃ (Operations.apply_mail_action-Sound serde now uuid action r h)
  run-IsSound (finish now id outcome) r h = Operations.finish_operation-Sound now id outcome r h
  run-IsSound (finish_action now id action outcome) r h =
      only_repository (Operations.finish_mail_action-Sound serde now id action outcome r h)
  run-IsSound (queue_mail now uuid message) r h =
      only_repository₃ (Operations.queue_outgoing-Sound serde now uuid message r h)
  run-IsSound (save_draft_call now uuid id message) r h =
      only_repository₃ (Accounts.save_draft-Sound serde now uuid id message r h)
  run-IsSound (delete_draft_call id) r h = only_repository (Accounts.delete_draft-Sound id r h)
  run-IsSound (upsert_task_call t) r h = only_repository (AgendaCalls.upsert_task-Sound t r h)
  run-IsSound (complete_task_call id finished) r h =
      only_repository (AgendaCalls.complete_task-Sound id finished r h)
  run-IsSound (delete_task_call id) r h = only_repository (AgendaCalls.delete_task-Sound id r h)
  run-IsSound (upsert_events_call events) r h =
      only_repository (AgendaCalls.upsert_events-Sound events r h)
  run-IsSound (delete_event_call id) r h = only_repository (AgendaCalls.delete_event-Sound id r h)
  run-IsSound (replace_agenda id start end tasks events) r h =
      only_repository (AgendaCalls.replace_remote_agenda-Sound id start end tasks events r h)
  run-IsSound (queue_agenda now uuid kind id payload) r h =
      only_repository₃ (Operations.queue_agenda_operation-Sound serde now uuid kind id payload r h)
  run-IsSound (defer now id e) r h = Operations.defer_operation-Sound now id e r h
  run-IsSound (commit_task_upsert now id t) r h =
      only_repository (AgendaCalls.commit_agenda_task_upsert-Sound now id t r h)
  run-IsSound (commit_task_delete now id task_id) r h =
      only_repository (AgendaCalls.commit_agenda_task_delete-Sound now id task_id r h)
  run-IsSound (commit_event_upsert now id e) r h =
      only_repository (AgendaCalls.commit_agenda_event_upsert-Sound now id e r h)
  run-IsSound (commit_event_delete now id event_id) r h =
      only_repository (AgendaCalls.commit_agenda_event_delete-Sound now id event_id r h)

  -- The integrity of the cache survives every list of jobs, failed ones included: primary keys and
  -- unique indexes stay unique, every mailbox, message and draft belongs to an account of the
  -- table, every sync cursor to a mailbox, and every message id begins with its account.
  pub serve-IsSound :
      (calls : List (Call Json)) (r : Repository Text) → IsSound r → IsSound (serve serde calls r)
  unfolding serve
  serve-IsSound [] r h = h
  serve-IsSound (c ∷ calls) r h = serve-IsSound calls _ (committed-IsSound r h (run-IsSound c r h))
