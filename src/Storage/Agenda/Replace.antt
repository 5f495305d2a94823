-- ===== src/Storage/Agenda/Replace.antt =====
-- What `replace_remote_agenda` of crates/quickmaild/src/storage.rs leaves in the agenda.
use quick_mail.Prelude.{ℕ, String, false, ◌≡◌, ◌∙◌, none, some, List, All, string_eq, if◌then◌else◌}
use quick_mail.Models.{DateTime, Task, CalendarEvent}
use quick_mail.Storage.Table.{find, delete, IsKeyed, has}
use quick_mail.Storage.Table.Laws.{find-delete}
use quick_mail.Storage.Schema.{Repository, task_key, event_key}
use quick_mail.Storage.Revision.{bump_revision-Ensures}
use quick_mail.Storage.Result.{ok, Ensures, Ensures-bind, Ensures-guard, Ensures-elim}
use quick_mail.Storage.Agenda.{
  put_tasks, put_events, is_replaced_task, is_replaced_event, page_is_scoped, replace_remote_agenda,
}
use quick_mail.Storage.Agenda.Stored.{
  stored_task, TasksStored, EventsStored, put_tasks-stores, put_events-stores, put_tasks-others,
  put_events-others,
}

module _ {Text : Type 0} (account_id : String) (start end : DateTime) (tasks : List Task)
    (events : List CalendarEvent) (r r' : Repository Text) (n : ℕ)
    (replaced : replace_remote_agenda account_id start end tasks events r ≡ ok (r', n)) where
  -- What holds of the tables that the puts leave holds of the tables after the replacement.
  replaced_tables :
      (P : List Task → Type 0) (Q : List CalendarEvent → Type 0)
      → Ensures P (put_tasks tasks (delete (is_replaced_task account_id) r.tasks))
      → Ensures Q (put_events events (delete (is_replaced_event account_id start end) r.events))
      → P r'.tasks × Q r'.events
  unfolding replace_remote_agenda
  replaced_tables P Q tasks_put events_put =
      Ensures-elim (replace_remote_agenda account_id start end tasks events r)
        (Ensures-guard (page_is_scoped account_id tasks events) _ (λ _.
          Ensures-bind tasks_put (λ tasks' p.
            Ensures-bind events_put
              (λ events' q. bump_revision-Ensures (λ out. P out.tasks × Q out.events) _ (p, q)))))
        replaced

  -- After `replace_remote_agenda` has succeeded with a page that has every id once, every task and
  -- every event of the page is in the agenda with all its fields, except that a task whose id was
  -- and stays in the agenda (not a remote task of the account) keeps the time of its creation.
  pub replace_remote_agenda-page :
      IsKeyed task_key tasks
      → IsKeyed event_key events
      → All
          (λ t.
            find task_key t.id r'.tasks
            ≡ some
                (stored_task t (find task_key t.id (delete (is_replaced_task account_id) r.tasks))))
          tasks
        × All (λ e. find event_key e.id r'.events ≡ some e) events
  replace_remote_agenda-page tasks_keyed events_keyed =
      replaced_tables (TasksStored tasks (delete (is_replaced_task account_id) r.tasks))
        (EventsStored events)
        (put_tasks-stores tasks (delete (is_replaced_task account_id) r.tasks) tasks_keyed)
        (put_events-stores events (delete (is_replaced_event account_id start end) r.events)
          events_keyed)

  -- An id that the page does not name shows, after `replace_remote_agenda`, what it showed before,
  -- except that the account's tasks of a remote source are gone, and so are the events that overlap
  -- the range and whose calendar id begins with the account's id and a colon.
  pub replace_remote_agenda-others :
      (task_id event_id : String)
      → IsKeyed task_key r.tasks
      → IsKeyed event_key r.events
      → has task_key task_id tasks ≡ false
      → has event_key event_id events ≡ false
      → (find task_key task_id r'.tasks ≡ elim (find task_key task_id r.tasks) [
        | none ↦ none
        | some t ↦ if is_replaced_task account_id t then none else some t
      ])
        × (find event_key event_id r'.events ≡ elim (find event_key event_id r.events) [
          | none ↦ none
          | some e ↦ if is_replaced_event account_id start end e then none else some e
        ])
  replace_remote_agenda-others task_id event_id tasks_keyed events_keyed no_task no_event =
      let (task_put, event_put) =
        replaced_tables _ _
          (put_tasks-others tasks (delete (is_replaced_task account_id) r.tasks) task_id no_task)
          (put_events-others events (delete (is_replaced_event account_id start end) r.events)
            event_id no_event) in
      (
        task_put ∙ find-delete task_key (is_replaced_task account_id) task_id r.tasks tasks_keyed,
        event_put
            ∙ find-delete event_key (is_replaced_event account_id start end) event_id r.events
                events_keyed,
      )
