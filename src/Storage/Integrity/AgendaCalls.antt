-- ===== src/Storage/Integrity/AgendaCalls.antt =====
-- The operations on tasks and events keep the integrity of the cache.
use quick_mail.Prelude.{
  ℤ, String, Bool, ◌&&◌, ◌≡◌, refl, none, some, List, [], ◌∷◌, string_eq, ◌==◌, if◌then◌else◌,
}
use quick_mail.Models.{Task, CalendarEvent, DateTime}
use quick_mail.Storage.Table.{has, update, delete, find}
use quick_mail.Storage.Table.Laws.{update-IsKeyed}
use quick_mail.Storage.Table.Index.{update-IsIndex}
use quick_mail.Storage.Schema.{OperationRow, Repository, task_key, event_key, operation_key}
use quick_mail.Storage.Scope.{contains}
use quick_mail.Storage.Operations.{settle, finish_agenda_operation_in_transaction, done}
use quick_mail.Storage.Agenda.{
  task_conflict, page_is_scoped, replace_remote_agenda, upsert_task, complete_task, delete_task,
  upsert_events, delete_event, commit_agenda_task_upsert, commit_agenda_task_delete,
  commit_agenda_event_upsert, commit_agenda_event_delete,
}
use quick_mail.Storage.Result.{
  ok, err, not_found, invalid_data, ◌>>=◌, Ensures, Ensures-bind, Ensures-guard, Ensures-if,
  returns, fails,
}
use quick_mail.Storage.Revision.{bump_revision}
use quick_mail.Storage.Integrity.{IsSound}
use quick_mail.Storage.Integrity.Tables.{
  set_tasks, set_events, set_operations, Sound, bump_revision-Sound, read_revision-Sound,
}
use quick_mail.Storage.Integrity.Agenda.{
  IsTaskTable, IsEventTable, put_task-IsTaskTable, put_event-IsEventTable, put_tasks-IsTaskTable,
  put_events-IsEventTable, delete-IsTaskTable, delete-IsEventTable,
}

module _ {Text : Type 0} where
  with_tasks :
      (r : Repository Text) (rows : List Task)
      → IsSound r
      → IsTaskTable rows
      → IsSound (record r { tasks = rows })
  with_tasks r rows h t = set_tasks r h rows t.0 t.1

  with_events :
      (r : Repository Text) (rows : List CalendarEvent)
      → IsSound r
      → IsEventTable rows
      → IsSound (record r { events = rows })
  with_events r rows h t = set_events r h rows t.0 t.1

  pub delete_tasks :
      (test : Task → Bool) (r : Repository Text)
      → IsSound r
      → IsSound (record r { tasks = delete test r.tasks })
  delete_tasks test r h =
      with_tasks r _ h (delete-IsTaskTable test r.tasks (h.tasks_keyed, h.tasks_external))

  pub delete_events :
      (test : CalendarEvent → Bool) (r : Repository Text)
      → IsSound r
      → IsSound (record r { events = delete test r.events })
  delete_events test r h =
      with_events r _ h (delete-IsEventTable test r.events (h.events_keyed, h.events_external))

  -- Settling and deferring rows of the operations table.
  pub update_operations :
      (test : OperationRow Text → Bool) (f : OperationRow Text → OperationRow Text)
      → ((o : OperationRow Text) → (f o).id ≡ o.id)
      → (r : Repository Text) → IsSound r
      → IsSound (record r { operations = update test f r.operations })
  update_operations test f keeps r h =
      set_operations r h _
        (update-IsKeyed operation_key test f keeps r.operations h.operations_keyed)

  finish_agenda-Sound :
      (now : ℤ) (id : String) (kinds : List String) (r : Repository Text)
      → IsSound r
      → Ensures IsSound (finish_agenda_operation_in_transaction now id kinds r)
  unfolding finish_agenda_operation_in_transaction
  finish_agenda-Sound now id kinds r h =
      elim (find operation_key id r.operations)
        as (λ found. Ensures IsSound (elim found [
          | none ↦ err not_found
          | some o ↦
              if contains kinds o.kind && o.state == "pending"
              then ok (record r {
                operations = update (λ q. q.id == id) (settle now done) r.operations;
              })
              else err (invalid_data "agenda operation cannot be committed in its current state")
        ])) [
          | none ↦ fails _
          | some o ↦
              Ensures-if (contains kinds o.kind && o.state == "pending")
                (λ _. returns _ (update_operations _ (settle now done) (λ q. refl) r h))
                (λ _. fails _)
        ]

  finish_and_bump :
      (now : ℤ) (id : String) (kinds : List String) (r : Repository Text)
      → IsSound r
      → Sound (finish_agenda_operation_in_transaction now id kinds r >>= bump_revision)
  finish_and_bump now id kinds r h =
      Ensures-bind (finish_agenda-Sound now id kinds r h) bump_revision-Sound

  pub upsert_task-Sound : (t : Task) (r : Repository Text) → IsSound r → Sound (upsert_task t r)
  unfolding upsert_task
  upsert_task-Sound t r h =
      Ensures-bind (put_task-IsTaskTable t r.tasks (h.tasks_keyed, h.tasks_external))
        (λ rows table. bump_revision-Sound _ (with_tasks r rows h table))

  pub complete_task-Sound :
      (id : String) (finished : Bool) (r : Repository Text)
      → IsSound r
      → Sound (complete_task id finished r)
  unfolding complete_task
  complete_task-Sound id finished r h = Ensures-guard (has task_key id r.tasks) _ (λ _.
      bump_revision-Sound _ (
        with_tasks r _ h (
          update-IsKeyed task_key _ _ (λ t. refl) r.tasks h.tasks_keyed,
          update-IsIndex task_conflict _ (λ t. record t { done = finished })
              (unfold task_conflict in λ a b. (refl, refl)) r.tasks h.tasks_external,
        )))

  pub delete_task-Sound : (id : String) (r : Repository Text) → IsSound r → Sound (delete_task id r)
  unfolding delete_task
  delete_task-Sound id r h =
      Ensures-guard (has task_key id r.tasks) _ (λ _. bump_revision-Sound _ (delete_tasks _ r h))

  pub upsert_events-Sound :
      (new : List CalendarEvent) (r : Repository Text) → IsSound r → Sound (upsert_events new r)
  unfolding upsert_events
  upsert_events-Sound [] r h = read_revision-Sound r h
  upsert_events-Sound (e ∷ new) r h =
      Ensures-bind (put_events-IsEventTable (e ∷ new) r.events (h.events_keyed, h.events_external))
        (λ rows table. bump_revision-Sound _ (with_events r rows h table))

  pub delete_event-Sound :
      (id : String) (r : Repository Text) → IsSound r → Sound (delete_event id r)
  unfolding delete_event
  delete_event-Sound id r h =
      Ensures-guard (has event_key id r.events) _ (λ _. bump_revision-Sound _ (delete_events _ r h))

  pub commit_agenda_task_upsert-Sound :
      (now : ℤ) (id : String) (t : Task) (r : Repository Text)
      → IsSound r
      → Sound (commit_agenda_task_upsert now id t r)
  unfolding commit_agenda_task_upsert
  commit_agenda_task_upsert-Sound now id t r h =
      Ensures-bind (put_task-IsTaskTable t r.tasks (h.tasks_keyed, h.tasks_external))
        (λ rows table. finish_and_bump now id _ _ (with_tasks r rows h table))

  pub commit_agenda_task_delete-Sound :
      (now : ℤ) (id task_id : String) (r : Repository Text)
      → IsSound r
      → Sound (commit_agenda_task_delete now id task_id r)
  unfolding commit_agenda_task_delete
  commit_agenda_task_delete-Sound now id task_id r h =
      Ensures-guard (has task_key task_id r.tasks) _
        (λ _. finish_and_bump now id _ _ (delete_tasks _ r h))

  pub commit_agenda_event_upsert-Sound :
      (now : ℤ) (id : String) (e : CalendarEvent) (r : Repository Text)
      → IsSound r
      → Sound (commit_agenda_event_upsert now id e r)
  unfolding commit_agenda_event_upsert
  commit_agenda_event_upsert-Sound now id e r h =
      Ensures-bind (put_event-IsEventTable e r.events (h.events_keyed, h.events_external))
        (λ rows table. finish_and_bump now id _ _ (with_events r rows h table))

  pub commit_agenda_event_delete-Sound :
      (now : ℤ) (id event_id : String) (r : Repository Text)
      → IsSound r
      → Sound (commit_agenda_event_delete now id event_id r)
  unfolding commit_agenda_event_delete
  commit_agenda_event_delete-Sound now id event_id r h =
      Ensures-guard (has event_key event_id r.events) _
        (λ _. finish_and_bump now id _ _ (delete_events _ r h))

  pub replace_remote_agenda-Sound :
      (account_id : String) (start end : DateTime) (tasks : List Task) (events : List CalendarEvent)
      (r : Repository Text)
      → IsSound r
      → Sound (replace_remote_agenda account_id start end tasks events r)
  unfolding replace_remote_agenda
  replace_remote_agenda-Sound account_id start end tasks events r h =
      Ensures-guard (page_is_scoped account_id tasks events) _ (λ _.
        Ensures-bind
          (put_tasks-IsTaskTable tasks _
            (delete-IsTaskTable _ r.tasks (h.tasks_keyed, h.tasks_external)))
          (λ rows table.
            Ensures-bind
              (put_events-IsEventTable events _
                (delete-IsEventTable _ r.events (h.events_keyed, h.events_external)))
              (λ rows' table'. bump_revision-Sound _ (
                with_events (record r { tasks = rows }) rows' (with_tasks r rows h table) table'))))
