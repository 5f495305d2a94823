-- ===== src/Storage/Scope.antt =====
-- Which rows of crates/quickmaild/src/storage.rs belong to an account: calendars by the prefix of
-- their id, and recorded operations by their payload.
pub mod Laws
use Prim.Native.Char.{code}
use Prim.Native.String.{◌++◌}
use quick_mail.Prelude.{
  ℕ, zero, suc, ◌+◌, String, Bool, true, false, ◌||◌, ◌&&◌, Option, none, some, List, [], ◌∷◌, ◌==◌,
  string_eq, any, filter, nat_beq, if◌then◌else◌,
}
use quick_mail.Models.Ids.{is_normalized_message_id, strip_prefix, starts_with_colon}
use quick_mail.Storage.Table.{delete}
use quick_mail.Storage.Schema.{OperationRow, operation_key}
use quick_mail.Storage.Serde.{Serde}

-- SQLite's `length` of a text: the number of characters before the first NUL.
unfoldable pub sql_length : String → ℕ
sql_length String.[] = 0
sql_length (String.◌∷◌ c s) = let rest = sql_length s in if nat_beq (code c) 0 then 0 else suc rest

-- SQLite's `substr(text, 1, n)` of a text: the characters before the first NUL, at most `n`.
unfoldable pub sql_substr : String → ℕ → String
sql_substr s zero = String.[]
sql_substr String.[] (suc n) = String.[]
sql_substr (String.◌∷◌ c s) (suc n) =
    let rest = sql_substr s n in if nat_beq (code c) 0 then String.[] else String.◌∷◌ c rest

-- `substr(calendar_id, 1, length(?1) + 1) = ?1 || ':'`.
unfoldable pub in_calendar_scope : String → String → Bool
in_calendar_scope account_id calendar_id =
    sql_substr calendar_id (sql_length account_id + 1) == account_id ++ ":"

-- `calendar_id.strip_prefix(account_id).is_some_and(|suffix| suffix.starts_with(':'))`.
unfoldable pub calendar_is_scoped : String → String → Bool
calendar_is_scoped account_id calendar_id = elim (strip_prefix account_id calendar_id) [
  | none ↦ false
  | some suffix ↦ starts_with_colon suffix
]

abbrev pub option_eq : Option String → Option String → Bool
option_eq none none = true
option_eq none (some b) = false
option_eq (some a) none = false
option_eq (some a) (some b) = a == b

abbrev agenda_kinds : List String
agenda_kinds =
    "agenda_task_create" ∷ "agenda_task_update" ∷ "agenda_task_complete" ∷ "agenda_task_delete"
    ∷ "agenda_event_create" ∷ "agenda_event_update" ∷ "agenda_event_delete" ∷ []

unfoldable pub contains : List String → String → Bool
contains kinds kind = any (λ k. k == kind) kinds

-- The kinds that `remove_account_operations` selects.
unfoldable pub is_owned_kind : String → Bool
unfolding contains
is_owned_kind kind = contains ("mail_action" ∷ "mail_send" ∷ agenda_kinds) kind

unfoldable pub is_agenda_kind : String → Bool
unfolding contains
is_agenda_kind kind = contains agenda_kinds kind

module _ {Json Text : Type 0} (serde : Serde Json Text) where
  unfoldable pub operation_payload_belongs_to_account : String → Text → String → Bool
  unfolding contains is_agenda_kind
  operation_payload_belongs_to_account kind payload_json account_id =
      elim (serde.value.from_str payload_json) [
        | none ↦ false
        | some payload ↦
            if kind == "mail_send" || is_agenda_kind kind
            then option_eq (serde.get_str "accountId" payload) (some account_id)
              || option_eq (serde.get_str "account_id" payload) (some account_id)
            else if kind == "mail_action"
            then any (is_normalized_message_id account_id) (serde.get_strings "messageIds" payload)
              || any (is_normalized_message_id account_id) (serde.get_strings "message_ids" payload)
            else false
      ]

  -- The loop of `remove_account_operations` over the selected rows.
  unfoldable pub delete_owned :
      String → List (OperationRow Text) → List (OperationRow Text) → List (OperationRow Text)
  delete_owned account_id [] operations = operations
  delete_owned account_id (o ∷ selected) operations = delete_owned account_id selected (
      if operation_payload_belongs_to_account o.kind o.payload_json account_id
      then delete (λ q. operation_key q == o.id) operations
      else operations)

  unfoldable pub remove_account_operations :
      String → List (OperationRow Text) → List (OperationRow Text)
  unfolding delete_owned
  remove_account_operations account_id operations =
      delete_owned account_id (filter (λ o. is_owned_kind o.kind) operations) operations
