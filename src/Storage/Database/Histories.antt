-- ===== src/Storage/Database/Histories.antt =====
-- What every list of calls of the database of crates/quickmaild/src/storage.rs keeps.
use quick_mail.Prelude.{
  ℕ, ℤ, ◌≡◌, filter, and_true, String, Bool, true, false, not, ◌&&◌, ◌||◌, Option, none, some, List,
  [], ◌∷◌, all, string_eq, pair_eq, ◌==◌,
}
use quick_mail.Provider.{MailAction, MailboxSyncPage}
use quick_mail.Storage.Table.{has, delete}
use quick_mail.Storage.Schema.{OperationRow, Repository, account_key, mailbox_key, fits_i64}
use quick_mail.Storage.Serde.{Serde}
use quick_mail.Storage.Revision.{bump_revision}
use quick_mail.Storage.Scope.{is_agenda_kind, is_owned_kind, remove_account_operations}
use quick_mail.Storage.Accounts.{
  upsert_account_config, update_account_counts, set_account_auth_state, delete_account_row,
  remove_account,
}
use quick_mail.Storage.Mailboxes.{upsert_mailboxes}
use quick_mail.Storage.Messages.{upsert_messages_with_body_state}
use quick_mail.Storage.SyncPage.{
  message_is_local, removal_is_valid, removal_is_local, sync_cursor_is_invalid, is_no_op,
  reset_mailbox, store_cursor, apply_checked_page, apply_mailbox_sync_page,
}
use quick_mail.Storage.Actions.{validate_mail_action, is_blank}
use quick_mail.Storage.Operations.{
  Outcome, done, failed, apply_mail_action, finish_mail_action, queue_outgoing,
  queue_agenda_operation,
}
use quick_mail.Storage.Agenda.{
  is_replaced_task, is_replaced_event, put_task, put_tasks, put_event, put_events, page_is_scoped,
  upsert_task, complete_task, delete_task, upsert_events, delete_event, replace_remote_agenda,
  commit_agenda_task_upsert, commit_agenda_task_delete, commit_agenda_event_upsert,
  commit_agenda_event_delete,
}
use quick_mail.Storage.Drafts.{save_draft, delete_draft}
use quick_mail.Storage.Result.{
  Result, ok, ◌>>=◌, guard, Ensures, Ensures-bind, Ensures-guard, Ensures-if, Ensures-Unit, returns,
  fails,
}
use quick_mail.Storage.Database.{
  Call, upsert_account, update_counts, set_auth_state, remove_account_call, upsert_mailboxes_call,
  apply_sync_page, upsert_messages_call, apply_action, finish, finish_action, queue_mail,
  save_draft_call, delete_draft_call, upsert_task_call, complete_task_call, delete_task_call,
  upsert_events_call, delete_event_call, replace_agenda, queue_agenda, defer, commit_task_upsert,
  commit_task_delete, commit_event_upsert, commit_event_delete, run, serve, committed,
  repository_of, repository_of₃,
}
use quick_mail.Storage.Database.Keeping.{
  Kept, Holds, remove_account_operations-keeps, bumped, unchanged, after_step, committed_step,
  queued, upsert_each_mailbox-keeps, finish_operation-keeps, defer_operation-keeps,
  upsert_each_message-keeps, upsert_each_summary-keeps, apply_action_locally-keeps,
}

module _ {Text : Type 0} {fresh : String → Bool} {Q : ℕ → List (OperationRow Text) → Type 0}
    (kept : Kept fresh Q) where
  of_pair :
      {A : Type 0} {m : Result (Repository Text × A)}
      → Ensures (λ p. Holds Q p.0) m
      → Ensures (Holds Q) (repository_of m)
  of_pair h = Ensures-bind h (λ p g. returns _ g)

  of_triple :
      {A B : Type 0} {m : Result (Repository Text × A × B)}
      → Ensures (λ p. Holds Q p.0) m
      → Ensures (Holds Q) (repository_of₃ m)
  of_triple h = Ensures-bind h (λ p g. returns _ g)

  answered :
      {A : Type 0} (answer : A) (q : Repository Text)
      → Holds Q q
      → Ensures {A = Repository Text × A × ℕ}
          (λ p. Holds Q p.0)
          (bump_revision q >>= λ p. ok (p.0, answer, p.1))
  answered answer q h = Ensures-bind (bumped kept q h) (λ p g. returns _ g)

  reset_mailbox-keeps :
      (a m : String) (reset : Bool) (r : Repository Text)
      → Holds Q r
      → Holds Q (reset_mailbox a m reset r)
  unfolding reset_mailbox
  reset_mailbox-keeps a m false r h = h
  reset_mailbox-keeps a m true r h = h

  store_cursor-keeps :
      (now : ℤ) (a m : String) (cursor : Option String) (r : Repository Text)
      → Holds Q r
      → Holds Q (store_cursor now a m cursor r)
  unfolding store_cursor
  store_cursor-keeps now a m none r h = h
  store_cursor-keeps now a m (some cursor) r h = h

-- An operation that the call enters has such an id.
abbrev pub draws : {Json : Type 0} → (String → Bool) → Call Json → Bool
draws fresh (apply_action now uuid action) = fresh uuid
draws fresh (queue_mail now uuid message) = fresh uuid
draws fresh (queue_agenda now uuid kind id payload) = fresh uuid
draws fresh _ = true

module _ {Json Text : Type 0} (serde : Serde Json Text) {fresh : String → Bool}
    {Q : ℕ → List (OperationRow Text) → Type 0} (kept : Kept fresh Q) where
  apply_mailbox_sync_page-keeps :
      (now : ℤ) (a m : String) (page : MailboxSyncPage Json) (r : Repository Text)
      → Holds Q r
      → Ensures (λ p. Holds Q p.0) (apply_mailbox_sync_page serde now a m page r)
  unfolding apply_mailbox_sync_page apply_checked_page
  apply_mailbox_sync_page-keeps now a m page r h =
      Ensures-guard (all (message_is_local a m) page.messages) _ (λ _.
        Ensures-guard (all (removal_is_valid a page.messages) page.removed_message_ids) _ (λ _.
          Ensures-guard (not (sync_cursor_is_invalid page.cursor)) _ (λ _.
            Ensures-if (is_no_op page) (λ _. unchanged kept r h)
              (λ _. Ensures-guard (has mailbox_key (a, m) r.mailboxes) _ (λ _.
                Ensures-guard (all (removal_is_local a m r) page.removed_message_ids) _ (λ _.
                  Ensures-bind
                    (upsert_each_summary-keeps serde kept now page.messages _
                      (reset_mailbox-keeps kept a m page.reset r h))
                    (λ q g. bumped kept _ (store_cursor-keeps kept now a m page.cursor q g))))))))

  finish_mail_action-keeps :
      (now : ℤ) (id : String) (action : MailAction) (outcome : Outcome) (r : Repository Text)
      → Holds Q r
      → Ensures (λ p. Holds Q p.0) (finish_mail_action serde now id action outcome r)
  unfolding finish_mail_action
  finish_mail_action-keeps now id action done r h =
      Ensures-bind (finish_operation-keeps kept now id done r h)
        (λ q g. Ensures-bind (apply_action_locally-keeps serde kept now action q g) (bumped kept))
  finish_mail_action-keeps now id action (failed error) r h =
      Ensures-bind (finish_operation-keeps kept now id (failed error) r h) (unchanged kept)

  run-keeps :
      (c : Call Json) (r : Repository Text)
      → draws fresh c ≡ true
      → Holds Q r
      → Ensures (Holds Q) (run serde c r)
  unfolding run upsert_account_config update_account_counts set_account_auth_state remove_account
      remove_account_operations delete_account_row upsert_mailboxes upsert_messages_with_body_state
      apply_mail_action queue_outgoing save_draft delete_draft upsert_task complete_task delete_task
      upsert_events delete_event replace_remote_agenda queue_agenda_operation
      commit_agenda_task_upsert commit_agenda_task_delete commit_agenda_event_upsert
      commit_agenda_event_delete
  run-keeps (upsert_account now a config) r d h =
      of_pair kept (after_step kept (guard _ _) _ (λ _. h))
  run-keeps (update_counts now id unread total) r d h = of_pair kept (
      Ensures-guard (fits_i64 unread && fits_i64 total) _
        (λ _. after_step kept (guard _ _) _ (λ _. h)))
  run-keeps (set_auth_state now id state e) r d h = of_pair kept (
      Ensures-guard (state == "ready" || (state == "needs_auth" || state == "error")) _
        (λ _. after_step kept (guard _ _) _ (λ _. h)))
  run-keeps (remove_account_call id) r d h = of_pair kept (
      after_step kept (guard _ _) _ (λ _.
        remove_account_operations-keeps kept serde id r.revision
          (filter (λ o. is_owned_kind o.kind) r.operations) r.operations h))
  run-keeps (upsert_mailboxes_call []) r d h = of_pair kept (unchanged kept r h)
  run-keeps (upsert_mailboxes_call (m ∷ mailboxes)) r d h =
      of_pair kept (Ensures-bind (upsert_each_mailbox-keeps kept (m ∷ mailboxes) r h) (bumped kept))
  run-keeps (apply_sync_page now a m page) r d h =
      of_pair kept (apply_mailbox_sync_page-keeps now a m page r h)
  run-keeps (upsert_messages_call now [] loaded) r d h = of_pair kept (unchanged kept r h)
  run-keeps (upsert_messages_call now (m ∷ messages) loaded) r d h = of_pair kept (
      Ensures-bind (upsert_each_message-keeps serde kept now loaded (m ∷ messages) r h)
        (bumped kept))
  run-keeps (apply_action now uuid action) r d h = of_triple kept (
      Ensures-bind {Q = λ _. Unit} (Ensures-Unit (validate_mail_action action))
        (λ _ _. queued kept now uuid "mail_action" _ uuid r d h))
  run-keeps (finish now id outcome) r d h = finish_operation-keeps kept now id outcome r h
  run-keeps (finish_action now id action outcome) r d h =
      of_pair kept (finish_mail_action-keeps now id action outcome r h)
  run-keeps (queue_mail now uuid message) r d h =
      of_triple kept (queued kept now uuid "mail_send" _ uuid r d h)
  run-keeps (save_draft_call now uuid id message) r d h =
      of_triple kept
        (Ensures-guard (has account_key message.account_id r.accounts) _ (λ _. answered kept _ _ h))
  run-keeps (delete_draft_call id) r d h = of_pair kept (after_step kept (guard _ _) _ (λ _. h))
  run-keeps (upsert_task_call t) r d h =
      of_pair kept (after_step kept (put_task t r.tasks) _ (λ _. h))
  run-keeps (complete_task_call id finished) r d h =
      of_pair kept (after_step kept (guard _ _) _ (λ _. h))
  run-keeps (delete_task_call id) r d h = of_pair kept (after_step kept (guard _ _) _ (λ _. h))
  run-keeps (upsert_events_call []) r d h = of_pair kept (unchanged kept r h)
  run-keeps (upsert_events_call (e ∷ events)) r d h =
      of_pair kept (after_step kept (put_events (e ∷ events) r.events) _ (λ _. h))
  run-keeps (delete_event_call id) r d h = of_pair kept (after_step kept (guard _ _) _ (λ _. h))
  run-keeps (replace_agenda id start end tasks events) r d h = of_pair kept (
      Ensures-guard (page_is_scoped id tasks events) _ (λ _.
        Ensures-bind {Q = λ _. Unit}
          (Ensures-Unit (put_tasks tasks (delete (is_replaced_task id) r.tasks)))
          (λ tasks' _.
            after_step kept (put_events events (delete (is_replaced_event id start end) r.events)) _
              (λ _. h))))
  run-keeps (queue_agenda now uuid kind id payload) r d h = of_triple kept (
      Ensures-guard (is_agenda_kind kind && (not (is_blank id) && serde.is_object payload)) _
        (λ _. queued kept now uuid kind _ uuid r d h))
  run-keeps (defer now id e) r d h = defer_operation-keeps kept now id e r h
  run-keeps (commit_task_upsert now id t) r d h =
      of_pair kept (committed_step kept (put_task t r.tasks) _ now id _ (λ _. h))
  run-keeps (commit_task_delete now id task_id) r d h =
      of_pair kept (committed_step kept (guard _ _) _ now id _ (λ _. h))
  run-keeps (commit_event_upsert now id e) r d h =
      of_pair kept (committed_step kept (put_event e r.events) _ now id _ (λ _. h))
  run-keeps (commit_event_delete now id event_id) r d h =
      of_pair kept (committed_step kept (guard _ _) _ now id _ (λ _. h))

  committed-keeps :
      (r : Repository Text) {m : Result (Repository Text)}
      → Holds Q r
      → Ensures (Holds Q) m
      → Holds Q (committed r m)
  committed-keeps r h (returns q g) = g
  committed-keeps r h (fails e) = h

  pub serve-keeps :
      (calls : List (Call Json)) (r : Repository Text)
      → all (draws fresh) calls ≡ true
      → Holds Q r
      → Holds Q (serve serde calls r)
  unfolding serve
  serve-keeps [] r d h = h
  serve-keeps (c ∷ calls) r d h =
      let (here, later) = and_true (draws fresh c) (all (draws fresh) calls) d in
      serve-keeps calls (committed r (run serde c r)) later
        (committed-keeps r h (run-keeps c r here h))
