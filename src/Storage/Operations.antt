-- ===== src/Storage/Operations.antt =====
-- Recorded operations of crates/quickmaild/src/storage.rs: a row is `pending` until the provider
-- has answered, and then `succeeded` or `failed`. `uuid` is the text of `Uuid::new_v4()`, `now`
-- is `Utc::now().timestamp_millis()`.
pub mod Outcomes
pub mod Pending
pub mod Retries
use quick_mail.Prelude.{
  ℕ, ℤ, String, Bool, true, false, not, ◌&&◌, ◌||◌, Option, none, some, List, [], ◌∷◌, ◌++◌, ◌==◌,
  string_eq, filter, any, nat_beq, zero, suc, if◌then◌else◌,
}
use quick_mail.Models.{Task, CalendarEvent}
use quick_mail.Provider.{MailAction, OutgoingMessage}
use quick_mail.Storage.Table.{find, update, delete, has}
use quick_mail.Storage.Order.{codes, fold_case}
use quick_mail.Storage.Schema.{OperationRow, Repository, operation_key}
use quick_mail.Storage.Scope.{option_eq, contains, is_agenda_kind}
use quick_mail.Storage.SyncPage.{is_none}
use quick_mail.Storage.Actions.{validate_mail_action, apply_action_locally, is_blank}
use quick_mail.Storage.Serde.{Serde}
use quick_mail.Storage.Revision.{read_revision, bump_revision}
use quick_mail.Storage.Result.{
  Result, ok, err, sqlite, invalid_data, not_found, serialization, ◌>>=◌, ◌>>◌, guard,
}

-- What a provider answered: `Result<(), String>`.
pub data Outcome : Type 0 where
  done : Outcome
  failed : String → Outcome

abbrev pub outcome_state : Outcome → String
outcome_state done = "succeeded"
outcome_state (failed error) = "failed"

abbrev pub outcome_error : Outcome → Option String
outcome_error done = none
outcome_error (failed error) = some error

abbrev pub is_done : Outcome → Bool
is_done done = true
is_done (failed error) = false

-- `kind LIKE 'agenda_%'`: the letters in either case, then at least one more character.
unfoldable pub like_prefix : List ℕ → List ℕ → Bool
unfolding fold_case
like_prefix [] [] = false
like_prefix [] (c ∷ text) = true
like_prefix (p ∷ pattern_) [] = false
like_prefix (p ∷ pattern_) (c ∷ text) =
    nat_beq (fold_case p) (fold_case c) && like_prefix pattern_ text

unfoldable pub like_agenda : String → Bool
unfolding like_prefix
like_agenda kind = like_prefix (codes "agenda") (codes kind)

pub record PendingAgendaOperation (Json : Type 0) : Type 0 where
  pub id : String
  pub kind : String
  pub account_id : String
  pub payload : Json
  pub attempted_at : Option ℤ

module _ {Text : Type 0} where
  -- `INSERT INTO operations … 'pending'`: the id is the primary key.
  unfoldable pub insert_operation :
      ℤ → String → String → Text → Repository Text → Result (Repository Text)
  insert_operation now uuid kind payload r = do
    guard (not (has operation_key uuid r.operations)) sqlite
    ok (record r {
      operations =
          r.operations
          ++ record {
            id = uuid;
            kind = kind;
            payload_json = payload;
            state = "pending";
            created_at = now;
            attempted_at = none;
            last_error = none;
          }
            ∷ [];
    })

  abbrev pub settle : ℤ → Outcome → OperationRow Text → OperationRow Text
  settle now outcome o = record o {
    state = outcome_state outcome;
    attempted_at = some now;
    last_error = outcome_error outcome;
  }

  unfoldable pub finish_operation :
      ℤ → String → Outcome → Repository Text → Result (Repository Text)
  finish_operation now operation_id outcome r = do
    guard (has operation_key operation_id r.operations) not_found
    ok (record r {
      operations = update (λ o. o.id == operation_id) (settle now outcome) r.operations;
    })

  -- `WHERE id=?1 AND state='pending' AND kind LIKE 'agenda_%'`.
  unfoldable pub is_deferrable : String → OperationRow Text → Bool
  is_deferrable operation_id o =
      o.id == operation_id && (o.state == "pending" && like_agenda o.kind)

  unfoldable pub defer_operation : ℤ → String → String → Repository Text → Result (Repository Text)
  unfolding is_deferrable
  defer_operation now operation_id error r = do
    guard (any (is_deferrable operation_id) r.operations) not_found
    ok (record r {
      operations =
          update (is_deferrable operation_id)
            (λ o. record o { state = "pending"; attempted_at = some now; last_error = some error })
            r.operations;
    })

  -- `SET state='succeeded', attempted_at=?2, last_error=NULL WHERE id=?1`, after the checks of
  -- `finish_agenda_operation_in_transaction`.
  unfoldable pub finish_agenda_operation_in_transaction :
      ℤ → String → List String → Repository Text → Result (Repository Text)
  unfolding contains
  finish_agenda_operation_in_transaction now operation_id allowed_kinds r =
      elim (find operation_key operation_id r.operations) [
        | none ↦ err not_found
        | some o ↦
            if contains allowed_kinds o.kind && o.state == "pending"
            then ok (record r {
              operations = update (λ q. q.id == operation_id) (settle now done) r.operations;
            })
            else err (invalid_data "agenda operation cannot be committed in its current state")
      ]

module _ {Json Text : Type 0} (serde : Serde Json Text) where
  unfoldable pub apply_mail_action :
      ℤ → String → MailAction → Repository Text → Result (Repository Text × String × ℕ)
  apply_mail_action now uuid action r = do
    validate_mail_action action
    queued ← insert_operation now uuid "mail_action" (serde.mail_action action) r
    (r', revision) ← bump_revision queued
    ok (r', uuid, revision)

  unfoldable pub finish_mail_action :
      ℤ → String → MailAction → Outcome → Repository Text → Result (Repository Text × ℕ)
  finish_mail_action now operation_id action outcome r = do
    settled ← finish_operation now operation_id outcome r
    if is_done outcome
        then apply_action_locally serde now action settled >>= bump_revision
        else read_revision settled >>= (λ n. ok (settled, n))

  -- The payload names the account only.
  unfoldable pub queue_outgoing :
      ℤ → String → OutgoingMessage → Repository Text → Result (Repository Text × String × ℕ)
  queue_outgoing now uuid message r = do
    queued ←
        insert_operation now uuid "mail_send"
          (serde.value.to_string (serde.set_str "accountId" message.account_id serde.empty_object))
          r
    (r', revision) ← bump_revision queued
    ok (r', uuid, revision)

  unfoldable pub queue_agenda_operation :
      ℤ → String → String → String → Json → Repository Text → Result (Repository Text × String × ℕ)
  queue_agenda_operation now uuid kind account_id payload r = do
    guard (is_agenda_kind kind && (not (is_blank account_id) && serde.is_object payload))
        (invalid_data "invalid remote agenda operation")
    queued ←
        insert_operation now uuid kind
          (serde.value.to_string (serde.set_str "accountId" account_id payload)) r
    (r', revision) ← bump_revision queued
    ok (r', uuid, revision)

  -- `?2 IS NULL OR json_extract(payload_json, '$.accountId')=?2`; a document that does not parse is
  -- an error of SQLite.
  unfoldable pub extracts_account : Option String → Text → Result Bool
  extracts_account none payload_json = ok true
  extracts_account (some account_id) payload_json = elim (serde.value.from_str payload_json) [
    | none ↦ err sqlite
    | some payload ↦ ok (option_eq (serde.get_str "accountId" payload) (some account_id))
  ]

  -- The rows of the statement of `list_pending_agenda_operations`, up to its limit.
  unfoldable pub select_pending :
      ℕ → Option String → List (OperationRow Text) → Result (List (OperationRow Text))
  unfolding extracts_account like_agenda
  select_pending limit account_id [] = ok []
  select_pending zero account_id (o ∷ operations) = ok []
  select_pending (suc limit) account_id (o ∷ operations) =
      elim (o.state == "pending" && like_agenda o.kind) [
        | false ↦ select_pending (suc limit) account_id operations
        | true ↦ extracts_account account_id o.payload_json >>= elim [
          | false ↦ select_pending (suc limit) account_id operations
          | true ↦ select_pending limit account_id operations >>= λ rest. ok (o ∷ rest)
        ]
      ]

  -- `payload.get("accountId").and_then(Value::as_str).filter(|value| !value.is_empty())`.
  unfoldable pub operation_account : Json → Result String
  operation_account payload = elim (serde.get_str "accountId" payload) [
    | none ↦ err (invalid_data "agenda operation has no account ID")
    | some account_id ↦
        if account_id == ""
        then err (invalid_data "agenda operation has no account ID")
        else ok account_id
  ]

  -- `account_id.is_none_or(|expected| expected == operation_account_id)`.
  abbrev pub is_expected : Option String → String → Bool
  is_expected none account_id = true
  is_expected (some expected) account_id = expected == account_id

  unfoldable pub read_pending :
      Option String → List (OperationRow Text) → Result (List (PendingAgendaOperation Json))
  unfolding operation_account
  read_pending account_id [] = ok []
  read_pending account_id (o ∷ operations) = elim (serde.value.from_str o.payload_json) [
    | none ↦ err serialization
    | some payload ↦ do
      operation_account_id ← operation_account payload
      rest ← read_pending account_id operations
      ok (
          if is_expected account_id operation_account_id
          then record {
            id = o.id;
            kind = o.kind;
            account_id = operation_account_id;
            payload = payload;
            attempted_at = o.attempted_at;
          }
            ∷ rest
          else rest)
  ]

  unfoldable pub list_pending_agenda_operations :
      Option String → Repository Text → Result (List (PendingAgendaOperation Json))
  unfolding select_pending read_pending
  list_pending_agenda_operations account_id r =
      select_pending 128 account_id r.operations >>= read_pending account_id
