-- ===== src/Storage/Agenda.antt =====
-- Tasks and calendar events of crates/quickmaild/src/storage.rs, and the commits of the operations
-- on them that a provider has confirmed.
pub mod Commit
pub mod Range
pub mod Replace
pub mod Stored
use quick_mail.Prelude.{
  ℕ, ℤ, String, Bool, true, false, not, ◌&&◌, ◌||◌, Option, none, some, List, [], ◌∷◌, ◌==◌,
  string_eq, filter, any, all, ltb_ℤ, leb_ℤ, if◌then◌else◌,
}
use quick_mail.Models.{Task, CalendarEvent, DateTime}
use quick_mail.Storage.Table.{find, upsert, update, delete, has}
use quick_mail.Storage.Order.{order_by, text_ltb}
use quick_mail.Storage.Schema.{Repository, task_key, event_key}
use quick_mail.Storage.Scope.{in_calendar_scope, calendar_is_scoped}
use quick_mail.Storage.Operations.{finish_agenda_operation_in_transaction}
use quick_mail.Storage.Revision.{read_revision, bump_revision}
use quick_mail.Storage.Result.{Result, ok, err, sqlite, invalid_data, not_found, ◌>>=◌, ◌>>◌, guard}

-- The columns that `ON CONFLICT(id) DO UPDATE` sets: `created_at` is not among them.
unfoldable pub merge_task : Task → Task → Task
merge_task old new = record new { id = old.id; created_at = old.created_at }

unfoldable pub merge_event : CalendarEvent → CalendarEvent → CalendarEvent
merge_event old new = record new { id = old.id }

-- The unique index `idx_tasks_external_id`: another row has the same external id.
unfoldable pub task_conflict : Task → Task → Bool
task_conflict t q =
    not (q.id == t.id)
    && (not (t.external_id == "")
        && (q.account == t.account && (q.source == t.source && q.external_id == t.external_id)))

-- The unique index `idx_events_external`.
unfoldable pub event_conflict : CalendarEvent → CalendarEvent → Bool
event_conflict e q =
    not (q.id == e.id)
    && (not (e.external_id == "")
        && (q.calendar_id == e.calendar_id && q.external_id == e.external_id))

-- `INSERT INTO tasks … ON CONFLICT(id) DO UPDATE`.
unfoldable pub put_task : Task → List Task → Result (List Task)
unfolding task_conflict merge_task
put_task t tasks = do
  guard (not (any (task_conflict t) tasks)) sqlite
  ok (upsert task_key merge_task t tasks)

unfoldable pub put_event : CalendarEvent → List CalendarEvent → Result (List CalendarEvent)
unfolding event_conflict merge_event
put_event e events = do
  guard (not (any (event_conflict e) events)) sqlite
  ok (upsert event_key merge_event e events)

unfoldable pub put_tasks : List Task → List Task → Result (List Task)
put_tasks [] tasks = ok tasks
put_tasks (t ∷ new) tasks = put_task t tasks >>= put_tasks new

unfoldable pub put_events : List CalendarEvent → List CalendarEvent → Result (List CalendarEvent)
put_events [] events = ok events
put_events (e ∷ new) events = put_event e events >>= put_events new

-- `ORDER BY due_at IS NULL, due_at`: those without a date stand last.
abbrev due_before : Option DateTime → Option DateTime → Bool
due_before none b = false
due_before (some a) none = true
due_before (some a) (some b) = ltb_ℤ a b

-- `ORDER BY done, due_at IS NULL, due_at, created_at, id`.
unfoldable pub task_before : Task → Task → Bool
task_before a b =
    if not a.done && b.done
    then true
    else if a.done && not b.done
    then false
    else if due_before a.due_at b.due_at
    then true
    else if due_before b.due_at a.due_at
    then false
    else if ltb_ℤ a.created_at b.created_at
    then true
    else leb_ℤ a.created_at b.created_at && text_ltb a.id b.id

-- `ORDER BY start_at, id`.
unfoldable pub event_before : CalendarEvent → CalendarEvent → Bool
event_before a b =
    if ltb_ℤ a.start_at b.start_at then true else leb_ℤ a.start_at b.start_at && text_ltb a.id b.id

-- `start_at < end AND end_at >= start`.
unfoldable pub overlaps : DateTime → DateTime → CalendarEvent → Bool
overlaps start end e = ltb_ℤ e.start_at end && leb_ℤ start e.end_at

-- `source IN ('google_tasks', 'microsoft_todo')`.
unfoldable pub is_remote_source : String → Bool
is_remote_source source = source == "google_tasks" || source == "microsoft_todo"

-- The tasks that `replace_remote_agenda` deletes.
unfoldable pub is_replaced_task : String → Task → Bool
unfolding is_remote_source
is_replaced_task account_id t = t.account == account_id && is_remote_source t.source

-- The events that `replace_remote_agenda` deletes.
unfoldable pub is_replaced_event : String → DateTime → DateTime → CalendarEvent → Bool
unfolding overlaps in_calendar_scope
is_replaced_event account_id start end e =
    in_calendar_scope account_id e.calendar_id && overlaps start end e

unfoldable pub page_is_scoped : String → List Task → List CalendarEvent → Bool
unfolding calendar_is_scoped
page_is_scoped account_id tasks events =
    all (λ t. t.account == account_id) tasks
    && all (λ e. calendar_is_scoped account_id e.calendar_id) events

module _ {Text : Type 0} where
  unfoldable pub upsert_task : Task → Repository Text → Result (Repository Text × ℕ)
  upsert_task t r = do tasks ← put_task t r.tasks; bump_revision (record r { tasks = tasks })

  unfoldable pub complete_task : String → Bool → Repository Text → Result (Repository Text × ℕ)
  complete_task id done r = do
    guard (has task_key id r.tasks) not_found
    bump_revision
        (record r { tasks = update (λ t. t.id == id) (λ t. record t { done = done }) r.tasks })

  unfoldable pub delete_task : String → Repository Text → Result (Repository Text × ℕ)
  delete_task id r = do
    guard (has task_key id r.tasks) not_found
    bump_revision (record r { tasks = delete (λ t. t.id == id) r.tasks })

  unfoldable pub upsert_events : List CalendarEvent → Repository Text → Result (Repository Text × ℕ)
  upsert_events [] r = read_revision r >>= λ n. ok (r, n)
  upsert_events (e ∷ new) r = do
    events ← put_events (e ∷ new) r.events
    bump_revision (record r { events = events })

  unfoldable pub delete_event : String → Repository Text → Result (Repository Text × ℕ)
  delete_event id r = do
    guard (has event_key id r.events) not_found
    bump_revision (record r { events = delete (λ e. e.id == id) r.events })

  unfoldable pub commit_agenda_task_upsert :
      ℤ → String → Task → Repository Text → Result (Repository Text × ℕ)
  commit_agenda_task_upsert now operation_id t r = do
    tasks ← put_task t r.tasks
    settled ←
        finish_agenda_operation_in_transaction now operation_id
          ("agenda_task_create" ∷ "agenda_task_update" ∷ "agenda_task_complete" ∷ [])
          (record r { tasks = tasks })
    bump_revision settled

  unfoldable pub commit_agenda_task_delete :
      ℤ → String → String → Repository Text → Result (Repository Text × ℕ)
  commit_agenda_task_delete now operation_id task_id r = do
    guard (has task_key task_id r.tasks) not_found
    settled ←
        finish_agenda_operation_in_transaction now operation_id ("agenda_task_delete" ∷ [])
          (record r { tasks = delete (λ t. t.id == task_id) r.tasks })
    bump_revision settled

  unfoldable pub commit_agenda_event_upsert :
      ℤ → String → CalendarEvent → Repository Text → Result (Repository Text × ℕ)
  commit_agenda_event_upsert now operation_id e r = do
    events ← put_event e r.events
    settled ←
        finish_agenda_operation_in_transaction now operation_id
          ("agenda_event_create" ∷ "agenda_event_update" ∷ []) (record r { events = events })
    bump_revision settled

  unfoldable pub commit_agenda_event_delete :
      ℤ → String → String → Repository Text → Result (Repository Text × ℕ)
  commit_agenda_event_delete now operation_id event_id r = do
    guard (has event_key event_id r.events) not_found
    settled ←
        finish_agenda_operation_in_transaction now operation_id ("agenda_event_delete" ∷ [])
          (record r { events = delete (λ e. e.id == event_id) r.events })
    bump_revision settled

  unfoldable pub replace_remote_agenda :
      String
      → DateTime
      → DateTime
      → List Task
      → List CalendarEvent
      → Repository Text
      → Result (Repository Text × ℕ)
  unfolding is_replaced_task is_replaced_event page_is_scoped
  replace_remote_agenda account_id start end tasks events r = do
    guard (page_is_scoped account_id tasks events)
        (invalid_data "remote agenda page is not scoped to its account")
    tasks' ← put_tasks tasks (delete (is_replaced_task account_id) r.tasks)
    events' ← put_events events (delete (is_replaced_event account_id start end) r.events)
    bump_revision (record r { tasks = tasks'; events = events' })

module _ (valid_millis : ℤ → Bool) where
  abbrev valid_due : Option DateTime → Bool
  valid_due none = true
  valid_due (some t) = valid_millis t

  unfoldable pub task_from_row : Task → Result Task
  task_from_row t = if valid_due t.due_at && valid_millis t.created_at then ok t else err sqlite

  unfoldable pub event_from_row : CalendarEvent → Result CalendarEvent
  event_from_row e = if valid_millis e.start_at && valid_millis e.end_at then ok e else err sqlite

  unfoldable pub collect_tasks : List Task → Result (List Task)
  unfolding task_from_row
  collect_tasks [] = ok []
  collect_tasks (row ∷ rows) = do t ← task_from_row row; tasks ← collect_tasks rows; ok (t ∷ tasks)

  unfoldable pub collect_events : List CalendarEvent → Result (List CalendarEvent)
  unfolding event_from_row
  collect_events [] = ok []
  collect_events (row ∷ rows) = do
    e ← event_from_row row
    events ← collect_events rows
    ok (e ∷ events)

  module _ {Text : Type 0} where
    -- `WHERE (?1 = 1 OR done = 0)`.
    unfoldable pub list_tasks : Bool → Repository Text → Result (List Task)
    list_tasks include_done r =
        collect_tasks (order_by task_before (filter (λ t. include_done || not t.done) r.tasks))

    unfoldable pub get_task : String → Repository Text → Result Task
    unfolding task_from_row
    get_task id r = elim (find task_key id r.tasks) [
      | none ↦ err not_found
      | some row ↦ task_from_row row
    ]

    unfoldable pub list_events : DateTime → DateTime → Repository Text → Result (List CalendarEvent)
    list_events start end r =
        collect_events (order_by event_before (filter (overlaps start end) r.events))

    unfoldable pub get_event : String → Repository Text → Result CalendarEvent
    unfolding event_from_row
    get_event id r = elim (find event_key id r.events) [
      | none ↦ err not_found
      | some row ↦ event_from_row row
    ]
