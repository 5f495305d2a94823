-- ===== src/Storage/Agenda/Commit.antt =====
-- Commits of agenda operations of crates/quickmaild/src/storage.rs: the change and the operation's
-- end are one transaction.
use quick_mail.Prelude.{
  ℕ, ℤ, String, Bool, true, false, ◌&&◌, ◌≡◌, refl, ap, ◌∙◌, Option, none, some, List, [], ◌∷◌,
  ◌==◌, string_eq, beq_refl, if◌then◌else◌,
}
use quick_mail.Models.{Task}
use quick_mail.Storage.Table.{find, update}
use quick_mail.Storage.Table.Laws.{find-update, find-key}
use quick_mail.Storage.Schema.{OperationRow, Repository, task_key, operation_key}
use quick_mail.Storage.Scope.{contains}
use quick_mail.Storage.Revision.{bump_revision-Ensures}
use quick_mail.Storage.Result.{
  ok, err, not_found, invalid_data, Ensures, Ensures-bind, Ensures-elim, Ensures-if, returns, fails,
}
use quick_mail.Storage.Operations.{settle, done, finish_agenda_operation_in_transaction}
use quick_mail.Storage.Agenda.{commit_agenda_task_upsert}
use quick_mail.Storage.Agenda.Stored.{stored_task, put_task-stores}

module _ {Text : Type 0} where
  -- Whether an operation of the id is pending, and of one of the kinds.
  abbrev pub is_open : List String → String → Repository Text → Bool
  is_open kinds operation_id r = elim (find operation_key operation_id r.operations) [
    | none ↦ false
    | some o ↦ contains kinds o.kind && o.state == "pending"
  ]

  -- The state of the operation, and its error, in the table.
  abbrev pub outcome_of : String → Repository Text → Option (String × Option String)
  outcome_of operation_id r = elim (find operation_key operation_id r.operations) [
    | none ↦ none
    | some o ↦ some (o.state, o.last_error)
  ]

  finish-committed :
      (now : ℤ) (operation_id : String) (kinds : List String) (r : Repository Text)
      → Ensures
          (λ q.
            (is_open kinds operation_id r ≡ true)
            × (outcome_of operation_id q ≡ some ("succeeded", none))
            × (q.tasks ≡ r.tasks)
            × (q.events ≡ r.events))
          (finish_agenda_operation_in_transaction now operation_id kinds r)
  unfolding finish_agenda_operation_in_transaction
  finish-committed now operation_id kinds r = go (find operation_key operation_id r.operations) refl
    where
      go :
          (found : Option (OperationRow Text))
          → find operation_key operation_id r.operations ≡ found
          → Ensures
              (λ q.
                (elim found as (λ _. Bool) [
                  | none ↦ false
                  | some o ↦ contains kinds o.kind && o.state == "pending"
                ]
                  ≡ true)
                × (outcome_of operation_id q ≡ some ("succeeded", none))
                × (q.tasks ≡ r.tasks)
                × (q.events ≡ r.events))
              (elim found [
                | none ↦ err not_found
                | some o ↦
                    if contains kinds o.kind && o.state == "pending"
                    then ok (record r {
                      operations =
                          update (λ q. q.id == operation_id) (settle now done) r.operations;
                    })
                    else err
                        (invalid_data "agenda operation cannot be committed in its current state")
              ])
      go none e = fails _
      go (some o) e =
          Ensures-if (contains kinds o.kind && o.state == "pending")
            (λ open_. returns _ (
              open_,
              rw (
                outcome_of,
                find-update operation_key (λ q. q.id == operation_id) (settle now done) (λ q. refl)
                    operation_id r.operations,
                e,
                find-key operation_key operation_id r.operations e,
                beq_refl operation_id,
              ),
              refl,
              refl,
            ))
            (λ _. fails _)

  -- When `commit_agenda_task_upsert` succeeds, the operation was pending and of a kind that stores a
  -- task, it has now succeeded without an error, and the agenda shows the task with all its
  -- fields, with the time of its creation kept if it was there: the three go together.
  pub commit_agenda_task_upsert-atomic :
      (now : ℤ) (operation_id : String) (t : Task) (r r' : Repository Text) (n : ℕ)
      → commit_agenda_task_upsert now operation_id t r ≡ ok (r', n)
      → (is_open
            ("agenda_task_create" ∷ "agenda_task_update" ∷ "agenda_task_complete" ∷ [])
            operation_id
            r
          ≡ true)
        × (outcome_of operation_id r' ≡ some ("succeeded", none))
        × (find task_key t.id r'.tasks ≡ some (stored_task t (find task_key t.id r.tasks)))
  unfolding commit_agenda_task_upsert
  commit_agenda_task_upsert-atomic now operation_id t r r' n h =
      Ensures-elim
        {P = λ p.
          (is_open ("agenda_task_create" ∷ "agenda_task_update" ∷ "agenda_task_complete" ∷ [])
              operation_id r
            ≡ true)
          × (outcome_of operation_id p.0 ≡ some ("succeeded", none))
          × (find task_key t.id p.0.tasks ≡ some (stored_task t (find task_key t.id r.tasks)))}
        (commit_agenda_task_upsert now operation_id t r)
        (Ensures-bind (put_task-stores t r.tasks) (λ out put.
          Ensures-bind (finish-committed now operation_id _ (record r { tasks = out })) (λ q c.
            bump_revision-Ensures
              (λ p.
                (is_open ("agenda_task_create" ∷ "agenda_task_update" ∷ "agenda_task_complete" ∷ [])
                    operation_id r
                  ≡ true)
                × (outcome_of operation_id p ≡ some ("succeeded", none))
                × (find task_key t.id p.tasks ≡ some (stored_task t (find task_key t.id r.tasks))))
              q (c.0, c.1, ap (find task_key t.id) c.2 ∙ put.0))))
        h
