-- ===== src/Storage/Agenda/Stored.antt =====
-- What the statements of crates/quickmaild/src/storage.rs that put tasks and events store.
use quick_mail.Prelude.{
  String, false, not, ◌≡◌, refl, ap, ◌∙◌, Option, none, some, List, [], ◌∷◌, All, any, ◌==◌,
  string_eq, beq_refl, arith,
}
use text.Mathlib.TextEquality.{eq_iff}
use quick_mail.Models.{Task, CalendarEvent}
use quick_mail.Storage.Table.{find, has, IsKeyed}
use quick_mail.Storage.Table.Laws.{find-upsert, find-key}
use quick_mail.Storage.Schema.{task_key, event_key}
use quick_mail.Storage.Result.{
  Result, ok, err, sqlite, Ensures, Ensures-bind, Ensures-guard, Ensures-elim, Ensures-imp, returns,
  fails,
}
use quick_mail.Storage.Agenda.{
  merge_task, merge_event, task_conflict, event_conflict, put_task, put_event, put_tasks,
  put_events,
}

-- The task as it is given, but a task that was there keeps the time of its creation.
abbrev pub stored_task : Task → Option Task → Task
stored_task t none = t
stored_task t (some old) = record t { created_at = old.created_at }

Ensures-both :
    {A : Type 0} {P Q : A → Type 0} (m : Result A)
    → Ensures P m
    → Ensures Q m
    → Ensures (λ a. P a × Q a) m
Ensures-both (ok a) h g = returns a (Ensures-elim (ok a) h refl, Ensures-elim (ok a) g refl)
Ensures-both (err e) h g = fails e

apart : (a b : String) → (a == b) ≡ false → (b == a) ≡ false
apart a b h = ground (arith, eq_iff a b, eq_iff b a, h)

-- A table that does not have the id holds only rows of other ids.
All-apart :
    {R : Type 0} (key : R → String) (P Q : R → Type 0) (id : String) (rows : List R)
    → has key id rows ≡ false
    → ((r : R) → (key r == id) ≡ false → P r → Q r)
    → All P rows
    → All Q rows
unfolding has
All-apart key P Q id [] fresh step h = tt
All-apart key P Q id (r ∷ rows) fresh step h =
    (step r (ground (arith, fresh)) h.0, All-apart key P Q id rows (ground (arith, fresh)) step h.1)

merged_task :
    (t : Task) (tasks : List Task) (found : Option Task)
    → find task_key t.id tasks ≡ found
    → (elim found [ none ↦ t | some old ↦ merge_task old t ]) ≡ stored_task t found
unfolding merge_task
merged_task t tasks none h = refl
merged_task t tasks (some old) h =
    ap (λ id. record t { id = id; created_at = old.created_at }) (find-key task_key t.id tasks h)

merged_event :
    (e : CalendarEvent) (events : List CalendarEvent) (found : Option CalendarEvent)
    → find event_key e.id events ≡ found
    → (elim found [ none ↦ e | some old ↦ merge_event old e ]) ≡ e
unfolding merge_event
merged_event e events none h = refl
merged_event e events (some old) h =
    ap (λ id. record e { id = id }) (find-key event_key e.id events h)

pub put_task-stores :
    (t : Task) (tasks : List Task)
    → Ensures
        (λ out.
          (find task_key t.id out ≡ some (stored_task t (find task_key t.id tasks)))
          × ((id : String) → (id == t.id) ≡ false → find task_key id out ≡ find task_key id tasks))
        (put_task t tasks)
unfolding put_task merge_task
put_task-stores t tasks = Ensures-guard (not (any (task_conflict t) tasks)) sqlite (λ _. returns _ (
  (rw (beq_refl t.id) at (find-upsert task_key merge_task (λ old new. refl) t.id t tasks))
      ∙ ap some (merged_task t tasks (find task_key t.id tasks) refl),
  λ id other.
      rw (apart id t.id other) at (find-upsert task_key merge_task (λ old new. refl) id t tasks),
))

pub put_event-stores :
    (e : CalendarEvent) (events : List CalendarEvent)
    → Ensures
        (λ out.
          (find event_key e.id out ≡ some e)
          × ((id : String)
              → (id == e.id) ≡ false
              → find event_key id out ≡ find event_key id events))
        (put_event e events)
unfolding put_event merge_event
put_event-stores e events = Ensures-guard (not (any (event_conflict e) events)) sqlite (λ _.
    returns _ (
      (rw (beq_refl e.id) at (find-upsert event_key merge_event (λ old new. refl) e.id e events))
          ∙ ap some (merged_event e events (find event_key e.id events) refl),
      λ id other.
          rw (apart id e.id other) at
            (find-upsert event_key merge_event (λ old new. refl) id e events),
    ))

-- An id that the new tasks do not name shows what it showed.
pub put_tasks-others :
    (new tasks : List Task) (id : String)
    → has task_key id new ≡ false
    → Ensures (λ out. find task_key id out ≡ find task_key id tasks) (put_tasks new tasks)
unfolding put_tasks has
put_tasks-others [] tasks id h = returns tasks refl
put_tasks-others (t ∷ new) tasks id h = Ensures-bind (put_task-stores t tasks) (λ mid put.
    Ensures-imp (λ out same. same ∙ put.1 id (apart t.id id (ground (arith, h))))
      (put_tasks-others new mid id (ground (arith, h))))

pub put_events-others :
    (new events : List CalendarEvent) (id : String)
    → has event_key id new ≡ false
    → Ensures (λ out. find event_key id out ≡ find event_key id events) (put_events new events)
unfolding put_events has
put_events-others [] events id h = returns events refl
put_events-others (e ∷ new) events id h = Ensures-bind (put_event-stores e events) (λ mid put.
    Ensures-imp (λ out same. same ∙ put.1 id (apart e.id id (ground (arith, h))))
      (put_events-others new mid id (ground (arith, h))))

-- Each of the new tasks is stored.
abbrev pub TasksStored : List Task → List Task → List Task → Type 0
TasksStored new tasks out =
    All (λ t. find task_key t.id out ≡ some (stored_task t (find task_key t.id tasks))) new

abbrev pub EventsStored : List CalendarEvent → List CalendarEvent → Type 0
EventsStored new out = All (λ e. find event_key e.id out ≡ some e) new

pub put_tasks-stores :
    (new tasks : List Task)
    → IsKeyed task_key new
    → Ensures (TasksStored new tasks) (put_tasks new tasks)
unfolding put_tasks IsKeyed
put_tasks-stores [] tasks keyed = returns tasks tt
put_tasks-stores (t ∷ new) tasks keyed = Ensures-bind (put_task-stores t tasks) (λ mid put.
    Ensures-imp
      (λ out both. (
        both.0 ∙ put.0,
        All-apart task_key _ _ t.id new keyed.0
            (λ q other stored. stored ∙ ap (λ o. some (stored_task q o)) (put.1 q.id other)) both.1,
      ))
      (Ensures-both (put_tasks new mid) (put_tasks-others new mid t.id keyed.0)
        (put_tasks-stores new mid keyed.1)))

pub put_events-stores :
    (new events : List CalendarEvent)
    → IsKeyed event_key new
    → Ensures (EventsStored new) (put_events new events)
unfolding put_events IsKeyed
put_events-stores [] events keyed = returns events tt
put_events-stores (e ∷ new) events keyed = Ensures-bind (put_event-stores e events) (λ mid put.
    Ensures-imp (λ out both. (both.0 ∙ put.0, both.1))
      (Ensures-both (put_events new mid) (put_events-others new mid e.id keyed.0)
        (put_events-stores new mid keyed.1)))
