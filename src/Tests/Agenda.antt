-- ===== src/Tests/Agenda.antt =====
-- The theorems on accounts, agendas and operations at concrete data.
use quick_mail.Prelude.{
  any, ℕ, ◌≤◌, Bool, not, length, ltb_ℤ, leb_ℤ, ◌&&◌, pos, true, ◌≡◌, refl, none, some, List, [],
  ◌∷◌, All, string_eq, ◌==◌, filter,
}
use quick_mail.Storage.Table.{find, has, IsKeyed}
use quick_mail.Storage.Schema.{Repository, task_key, event_key}
use quick_mail.Storage.Result.{Result, ok, err, not_found}
use quick_mail.Storage.Accounts.{
  remove_account, account_config, account_auth_state, upsert_account_config,
}
use quick_mail.Storage.Accounts.Purge.{
  IsPurged, Spared, remove_account-IsPurged, remove_account-others,
}
use quick_mail.Storage.Accounts.Lookup.{upsert_account_config-lookup}
use quick_mail.Storage.Scope.{in_calendar_scope, calendar_is_scoped}
use quick_mail.Storage.Scope.Laws.{in_calendar_scope-calendar_is_scoped}
use quick_mail.Storage.Agenda.{
  overlaps, event_before, replace_remote_agenda, commit_agenda_task_upsert,
}
use quick_mail.Storage.Agenda.Replace.{replace_remote_agenda-page, replace_remote_agenda-others}
use quick_mail.Storage.Order.Sorting.{IsOrdered}
use quick_mail.Storage.Agenda.Range.{list_events-overlaps}
use quick_mail.Storage.Agenda.Commit.{is_open, outcome_of, commit_agenda_task_upsert-atomic}
use quick_mail.Storage.Operations.{
  is_deferrable, like_agenda, failed, finish_operation, defer_operation,
  finish_agenda_operation_in_transaction, is_expected, list_pending_agenda_operations,
  PendingAgendaOperation,
}
use quick_mail.Storage.Operations.Retries.{waits_with, defer_operation-waits}
use quick_mail.Storage.Database.{Call, defer, queue_agenda, commit_task_upsert, serve}
use quick_mail.Models.{CalendarEvent}
use quick_mail.Storage.Database.Final.{
  finish_operation-final, finish_agenda_operation_in_transaction-once,
}
use quick_mail.Storage.Operations.Pending.{waits, list_pending_agenda_operations-pending}
use quick_mail.Tests.Fixture.{
  Json, Doc, null, object, serde, account, task, event, stocked, after_call, number_of,
}

remove_account-IsPurged_example : IsPurged serde "a" (after_call (remove_account serde "a" stocked))
unfolding remove_account has quick_mail.Storage.Revision.bump_revision
    quick_mail.Storage.Accounts.delete_account_row
remove_account-IsPurged_example =
    remove_account-IsPurged serde "a" stocked (after_call (remove_account serde "a" stocked))
      (number_of (remove_account serde "a" stocked)) refl

-- The second account goes, and the first one's rows stay.
remove_account-others_example :
    Spared serde "b" "a" stocked (after_call (remove_account serde "b" stocked))
unfolding remove_account has quick_mail.Storage.Revision.bump_revision
    quick_mail.Storage.Accounts.delete_account_row IsKeyed
remove_account-others_example =
    remove_account-others serde "b" stocked (after_call (remove_account serde "b" stocked))
      (number_of (remove_account serde "b" stocked)) "a" refl (refl, (refl, tt)) refl

-- An account that had to log in is stored again.
upsert_account_config-lookup_example :
    (account_config serde "a"
        (after_call (upsert_account_config serde (pos 9) (account "a") (object []) stocked))
      ≡ ok (some (account "a", object [])))
    × (account_auth_state "a"
          (after_call (upsert_account_config serde (pos 9) (account "a") (object []) stocked))
        ≡ some ("needs_auth", none))
    × (account_config serde "b"
          (after_call (upsert_account_config serde (pos 9) (account "a") (object []) stocked))
        ≡ ok (some (account "b", null)))
    × (account_auth_state "b"
          (after_call (upsert_account_config serde (pos 9) (account "a") (object []) stocked))
        ≡ some ("needs_auth", none))
unfolding upsert_account_config quick_mail.Storage.Revision.bump_revision account_auth_state
    account_config find
upsert_account_config-lookup_example =
    upsert_account_config-lookup serde (pos 9) (account "a") (object []) stocked
      (after_call (upsert_account_config serde (pos 9) (account "a") (object []) stocked))
      (number_of (upsert_account_config serde (pos 9) (account "a") (object []) stocked)) "b" refl
      refl

in_calendar_scope-calendar_is_scoped_example :
    in_calendar_scope "a" "a:work" ≡ calendar_is_scoped "a" "a:work"
in_calendar_scope-calendar_is_scoped_example =
    in_calendar_scope-calendar_is_scoped "a" "a:work" refl

abbrev replaced : Result (Repository Doc × ℕ)
replaced =
    replace_remote_agenda "a" (pos 0) (pos 9) (task "t3" "google_tasks" ∷ []) (event "e2" ∷ [])
      stocked

replace_remote_agenda-page_example :
    ((find task_key "t3" (after_call replaced).tasks ≡ some (task "t3" "google_tasks")) × Unit {0})
    × ((find event_key "e2" (after_call replaced).events ≡ some (event "e2")) × Unit {0})
unfolding replace_remote_agenda quick_mail.Storage.Agenda.put_tasks
    quick_mail.Storage.Agenda.put_task quick_mail.Storage.Table.delete
    quick_mail.Storage.Agenda.put_events quick_mail.Storage.Agenda.put_event
    quick_mail.Storage.Scope.sql_substr quick_mail.Storage.Scope.sql_length
    quick_mail.Storage.Revision.bump_revision IsKeyed has find
replace_remote_agenda-page_example =
    replace_remote_agenda-page "a" (pos 0) (pos 9) (task "t3" "google_tasks" ∷ []) (event "e2" ∷ [])
      stocked (after_call replaced) (number_of replaced) refl (refl, tt) (refl, tt)

-- The local task stays, the old remote event goes.
replace_remote_agenda-others_example :
    (find task_key "t2" (after_call replaced).tasks ≡ some (task "t2" "local"))
    × (find event_key "e1" (after_call replaced).events ≡ none)
unfolding replace_remote_agenda quick_mail.Storage.Agenda.put_tasks
    quick_mail.Storage.Agenda.put_task quick_mail.Storage.Table.delete
    quick_mail.Storage.Agenda.put_events quick_mail.Storage.Agenda.put_event
    quick_mail.Storage.Scope.sql_substr quick_mail.Storage.Scope.sql_length
    quick_mail.Storage.Revision.bump_revision IsKeyed has find
replace_remote_agenda-others_example =
    replace_remote_agenda-others "a" (pos 0) (pos 9) (task "t3" "google_tasks" ∷ [])
      (event "e2" ∷ []) stocked (after_call replaced) (number_of replaced) refl "t2" "e1"
      (refl, (refl, tt)) (refl, tt) refl refl

abbrev committed_task : Result (Repository Doc × ℕ)
committed_task = commit_agenda_task_upsert (pos 9) "o1" (task "t4" "google_tasks") stocked

commit_agenda_task_upsert-atomic_example :
    (is_open
        ("agenda_task_create" ∷ "agenda_task_update" ∷ "agenda_task_complete" ∷ [])
        "o1"
        stocked
      ≡ true)
    × (outcome_of "o1" (after_call committed_task) ≡ some ("succeeded", none))
    × (find task_key "t4" (after_call committed_task).tasks ≡ some (task "t4" "google_tasks"))
unfolding commit_agenda_task_upsert quick_mail.Storage.Agenda.put_task
    finish_agenda_operation_in_transaction find quick_mail.Storage.Revision.bump_revision
commit_agenda_task_upsert-atomic_example =
    commit_agenda_task_upsert-atomic (pos 9) "o1" (task "t4" "google_tasks") stocked
      (after_call committed_task) (number_of committed_task) refl

abbrev or_stocked : Result (Repository Doc) → Repository Doc
or_stocked (ok r) = r
or_stocked (err e) = stocked

abbrev failed_once : Repository Doc
failed_once = or_stocked (finish_operation (pos 9) "o1" (failed "offline") stocked)

-- What is called later: the operation is put off and tried again, and another one is queued.
abbrev later_calls : List (Call Json)
later_calls =
    defer (pos 10) "o1" "later"
    ∷ queue_agenda (pos 10) "o3" "agenda_task_create" "a" (object [])
    ∷ commit_task_upsert (pos 10) "o1" (task "t4" "google_tasks")
    ∷ []

finish_operation-final_example :
    (¬ (
      finish_agenda_operation_in_transaction
        (pos 11)
        "o1"
        ("agenda_task_create" ∷ [])
        (serve serde later_calls failed_once)
      ≡ ok stocked))
    × (defer_operation (pos 11) "o1" "later" (serve serde later_calls failed_once) ≡ err not_found)
unfolding finish_operation has
finish_operation-final_example =
    finish_operation-final serde "o1" (pos 9) (pos 11) "later" (failed "offline")
      ("agenda_task_create" ∷ []) later_calls stocked failed_once stocked refl refl

abbrev committed_once : Repository Doc
committed_once =
    or_stocked
      (finish_agenda_operation_in_transaction (pos 9) "o1" ("agenda_task_create" ∷ []) stocked)

finish_agenda_operation_in_transaction-once_example :
    (¬ (
      finish_agenda_operation_in_transaction
        (pos 11)
        "o1"
        ("agenda_task_create" ∷ [])
        (serve serde later_calls committed_once)
      ≡ ok stocked))
    × (defer_operation (pos 11) "o1" "later" (serve serde later_calls committed_once)
        ≡ err not_found)
unfolding finish_agenda_operation_in_transaction find
finish_agenda_operation_in_transaction-once_example =
    finish_agenda_operation_in_transaction-once serde "o1" (pos 9) (pos 11) "later"
      ("agenda_task_create" ∷ []) ("agenda_task_create" ∷ []) later_calls stocked committed_once
      stocked refl refl

abbrev pending : List (PendingAgendaOperation Json)
pending =
    record {
      id = "o1";
      kind = "agenda_task_create";
      account_id = "a";
      payload = object (("accountId", "a") ∷ []);
      attempted_at = none;
    }
    ∷ []

list_pending_agenda_operations-pending_example :
    (1 ≤ 128)
    × All (λ p. waits serde stocked.operations p.id ≡ true) pending
    × All (λ p. is_expected serde (some "a") p.account_id ≡ true) pending
unfolding list_pending_agenda_operations
list_pending_agenda_operations-pending_example =
    list_pending_agenda_operations-pending serde (some "a") stocked pending refl

list_events-overlaps_example :
    IsOrdered event_before (event "e1" ∷ [])
    × ((test : CalendarEvent → Bool)
        → length (filter test (event "e1" ∷ []))
          ≡ length (
              filter test
                (filter (λ e. ltb_ℤ e.start_at (pos 9) && leb_ℤ (pos 0) e.end_at) stocked.events)))
unfolding quick_mail.Storage.Agenda.list_events quick_mail.Storage.Agenda.collect_events
    quick_mail.Storage.Order.order_by overlaps quick_mail.Storage.Order.insert_row
list_events-overlaps_example =
    list_events-overlaps (λ t. true) (pos 0) (pos 9) stocked (event "e1" ∷ []) refl

abbrev deferred : Repository Doc
deferred = or_stocked (defer_operation (pos 9) "o1" "offline" stocked)

defer_operation-waits_example :
    (any (λ o. o.id == "o1" && (o.state == "pending" && like_agenda o.kind)) stocked.operations
      ≡ true)
    × (any (waits_with "o1" (some "offline")) deferred.operations ≡ true)
    × (filter (λ o. not (is_deferrable "o1" o)) deferred.operations
        ≡ filter (λ o. not (is_deferrable "o1" o)) stocked.operations)
    × (deferred ≡ record stocked { operations = deferred.operations })
unfolding defer_operation quick_mail.Storage.Operations.like_agenda
defer_operation-waits_example = defer_operation-waits (pos 9) "o1" "offline" stocked deferred refl
