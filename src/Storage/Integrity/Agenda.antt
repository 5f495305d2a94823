-- ===== src/Storage/Integrity/Agenda.antt =====
-- The statements on tasks, events and operations keep the integrity of the cache.
use text.Mathlib.TextEquality.{eq_iff}
use quick_mail.Prelude.{Bool, true, false, not, ◌≡◌, refl, List, [], ◌∷◌, any, string_eq, arith}
use quick_mail.Models.{Task, CalendarEvent}
use quick_mail.Storage.Table.{IsKeyed, delete}
use quick_mail.Storage.Table.Laws.{upsert-IsKeyed, delete-IsKeyed}
use quick_mail.Storage.Table.Index.{upsert-IsIndex, delete-IsIndex}
use quick_mail.Storage.Schema.{task_key, event_key}
use quick_mail.Storage.Agenda.{
  merge_task, merge_event, task_conflict, event_conflict, put_task, put_event, put_tasks,
  put_events,
}
use quick_mail.Storage.Result.{Ensures, Ensures-bind, Ensures-guard, returns}
use quick_mail.Storage.Integrity.{IsTaskIndex, IsEventIndex}

task_conflict_sym : (a b : Task) → task_conflict a b ≡ false → task_conflict b a ≡ false
unfolding task_conflict
task_conflict_sym a b h = ground (
  arith,
  eq_iff a.id b.id,
  eq_iff b.id a.id,
  eq_iff a.account b.account,
  eq_iff b.account a.account,
  eq_iff a.source b.source,
  eq_iff b.source a.source,
  eq_iff a.external_id b.external_id,
  eq_iff b.external_id a.external_id,
)

task_conflict_self : (a b : Task) → a.id ≡ b.id → task_conflict a b ≡ false
unfolding task_conflict
task_conflict_self a b h = ground (arith, eq_iff b.id a.id)

task_conflict-merge :
    (old new x : Task)
    → old.id ≡ new.id
    → task_conflict (merge_task old new) x ≡ task_conflict new x
unfolding task_conflict merge_task
task_conflict-merge old new x h = rw h

event_conflict_sym : (a b : CalendarEvent) → event_conflict a b ≡ false → event_conflict b a ≡ false
unfolding event_conflict
event_conflict_sym a b h = ground (
  arith,
  eq_iff a.id b.id,
  eq_iff b.id a.id,
  eq_iff a.calendar_id b.calendar_id,
  eq_iff b.calendar_id a.calendar_id,
  eq_iff a.external_id b.external_id,
  eq_iff b.external_id a.external_id,
)

event_conflict_self : (a b : CalendarEvent) → a.id ≡ b.id → event_conflict a b ≡ false
unfolding event_conflict
event_conflict_self a b h = ground (arith, eq_iff b.id a.id)

event_conflict-merge :
    (old new x : CalendarEvent)
    → old.id ≡ new.id
    → event_conflict (merge_event old new) x ≡ event_conflict new x
unfolding event_conflict merge_event
event_conflict-merge old new x h = rw h

abbrev pub IsTaskTable : List Task → Type 0
IsTaskTable rows = IsKeyed task_key rows × IsTaskIndex rows

abbrev pub IsEventTable : List CalendarEvent → Type 0
IsEventTable rows = IsKeyed event_key rows × IsEventIndex rows

not-false : (b : Bool) → not b ≡ true → b ≡ false
not-false b h = ground arith

merge_task-key : (old new : Task) → (merge_task old new).id ≡ old.id
unfolding merge_task
merge_task-key old new = refl

merge_event-key : (old new : CalendarEvent) → (merge_event old new).id ≡ old.id
unfolding merge_event
merge_event-key old new = refl

-- A task is stored only if the table keeps its key and its index.
pub put_task-IsTaskTable :
    (t : Task) (rows : List Task) → IsTaskTable rows → Ensures IsTaskTable (put_task t rows)
unfolding put_task
put_task-IsTaskTable t rows h = Ensures-guard (not (any (task_conflict t) rows)) _ (λ free.
    returns _ (
      upsert-IsKeyed task_key merge_task merge_task-key t rows h.0,
      upsert-IsIndex task_key merge_task task_conflict merge_task-key task_conflict_sym
          task_conflict_self task_conflict-merge t rows (not-false _ free) h.1,
    ))

pub put_event-IsEventTable :
    (e : CalendarEvent) (rows : List CalendarEvent)
    → IsEventTable rows
    → Ensures IsEventTable (put_event e rows)
unfolding put_event
put_event-IsEventTable e rows h = Ensures-guard (not (any (event_conflict e) rows)) _ (λ free.
    returns _ (
      upsert-IsKeyed event_key merge_event merge_event-key e rows h.0,
      upsert-IsIndex event_key merge_event event_conflict merge_event-key event_conflict_sym
          event_conflict_self event_conflict-merge e rows (not-false _ free) h.1,
    ))

pub put_tasks-IsTaskTable :
    (new rows : List Task) → IsTaskTable rows → Ensures IsTaskTable (put_tasks new rows)
unfolding put_tasks
put_tasks-IsTaskTable [] rows h = returns rows h
put_tasks-IsTaskTable (t ∷ new) rows h =
    Ensures-bind (put_task-IsTaskTable t rows h) (put_tasks-IsTaskTable new)

pub put_events-IsEventTable :
    (new rows : List CalendarEvent) → IsEventTable rows → Ensures IsEventTable (put_events new rows)
unfolding put_events
put_events-IsEventTable [] rows h = returns rows h
put_events-IsEventTable (e ∷ new) rows h =
    Ensures-bind (put_event-IsEventTable e rows h) (put_events-IsEventTable new)

pub delete-IsTaskTable :
    (test : Task → Bool) (rows : List Task) → IsTaskTable rows → IsTaskTable (delete test rows)
delete-IsTaskTable test rows h =
    (delete-IsKeyed task_key test rows h.0, delete-IsIndex task_conflict test rows h.1)

pub delete-IsEventTable :
    (test : CalendarEvent → Bool) (rows : List CalendarEvent)
    → IsEventTable rows
    → IsEventTable (delete test rows)
delete-IsEventTable test rows h =
    (delete-IsKeyed event_key test rows h.0, delete-IsIndex event_conflict test rows h.1)
