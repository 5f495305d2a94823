-- ===== src/Storage/Accounts.antt =====
-- Accounts of crates/quickmaild/src/storage.rs. `now` is `Utc::now().timestamp_millis()`.
pub mod Lookup
pub mod Purge
use Prim.Native.String.{◌++◌}
use quick_mail.Prelude.{
  ℕ, ℤ, ◌+◌, String, Bool, true, false, not, ◌||◌, ◌&&◌, Option, none, some, List, [], ◌∷◌, map,
  ◌==◌, string_eq, any, if◌then◌else◌,
}
use quick_mail.Models.{Account}
use quick_mail.Storage.Table.{find, upsert, update, delete, has}
use quick_mail.Storage.Order.{order_by, nocase_ltb}
use quick_mail.Storage.Schema.{
  AccountRow, Repository, account_key, fits_i64, MailboxRow, SyncRow, MessageRow, DraftRow,
}
use quick_mail.Storage.Serde.{Serde}
use quick_mail.Storage.Scope.{in_calendar_scope, remove_account_operations}
use quick_mail.Storage.Revision.{bump_revision}
use quick_mail.Storage.Result.{Result, ok, err, sqlite, invalid_data, not_found, ◌>>=◌, ◌>>◌, guard}

module _ {Text : Type 0} where
  -- The row after `ON CONFLICT(id) DO UPDATE`: the login state is not among the columns set.
  unfoldable pub merge_account : AccountRow Text → AccountRow Text → AccountRow Text
  merge_account old new = record old {
    account = record (new.account) { id = old.account.id };
    config_json = new.config_json;
    updated_at = new.updated_at;
  }

  unfoldable pub list_accounts : Repository Text → List Account
  list_accounts r =
      map (λ row. row.account)
        (order_by (λ a b. nocase_ltb a.account.address b.account.address) r.accounts)

  unfoldable pub update_account_counts :
      ℤ → String → ℕ → ℕ → Repository Text → Result (Repository Text × ℕ)
  update_account_counts now account_id unread total r = do
    guard (fits_i64 unread && fits_i64 total) sqlite
    guard (has account_key account_id r.accounts) not_found
    bump_revision (record r {
      accounts =
          update (λ row. row.account.id == account_id)
            (λ row. record row {
              account = record (row.account) { unread = unread; total = total };
              updated_at = now;
            })
            r.accounts;
    })

  unfoldable pub set_account_auth_state :
      ℤ → String → String → Option String → Repository Text → Result (Repository Text × ℕ)
  set_account_auth_state now account_id state error r = do
    guard (state == "ready" || (state == "needs_auth" || state == "error"))
        (invalid_data "invalid account auth state")
    guard (has account_key account_id r.accounts) not_found
    bump_revision (record r {
      accounts =
          update (λ row. row.account.id == account_id)
            (λ row. record row { auth_state = state; auth_error = error; updated_at = now })
            r.accounts;
    })

  unfoldable pub account_auth_state : String → Repository Text → Option (String × Option String)
  account_auth_state account_id r = elim (find account_key account_id r.accounts) [
    | none ↦ none
    | some row ↦ some (row.auth_state, row.auth_error)
  ]

  -- `DELETE FROM accounts WHERE id=?`, with the `ON DELETE CASCADE` of the tables that refer to it.
  unfoldable pub delete_account_row : String → Repository Text → Repository Text
  delete_account_row id r = record r {
    accounts = delete (λ row. row.account.id == id) r.accounts;
    mailboxes = delete (λ row. row.account_id == id) r.mailboxes;
    sync_state = delete (λ row. row.account_id == id) r.sync_state;
    messages = delete (λ row. row.account_id == id) r.messages;
    drafts = delete (λ row. row.account_id == id) r.drafts;
  }

module _ {Json Text : Type 0} (serde : Serde Json Text) where
  unfoldable pub upsert_account_config :
      ℤ → Account → Json → Repository Text → Result (Repository Text × ℕ)
  upsert_account_config now account config r = do
    guard (fits_i64 account.unread && fits_i64 account.total) sqlite
    bump_revision (record r {
      accounts =
          upsert account_key merge_account
            (record {
              account = account;
              config_json = serde.value.to_string config;
              auth_state = "ready";
              auth_error = none;
              updated_at = now;
            })
            r.accounts;
    })

  unfoldable pub upsert_account : ℤ → Account → Repository Text → Result (Repository Text × ℕ)
  upsert_account now account r = upsert_account_config now account serde.empty_object r

  unfoldable pub account_config_from_row : AccountRow Text → Result (Account × Json)
  account_config_from_row row = elim (serde.value.from_str row.config_json) [
    | none ↦ err sqlite
    | some config ↦ ok (row.account, config)
  ]

  unfoldable pub collect_configs : List (AccountRow Text) → Result (List (Account × Json))
  unfolding account_config_from_row
  collect_configs [] = ok []
  collect_configs (row ∷ rows) = do
    config ← account_config_from_row row
    configs ← collect_configs rows
    ok (config ∷ configs)

  unfoldable pub list_account_configs : Repository Text → Result (List (Account × Json))
  list_account_configs r =
      collect_configs (order_by (λ a b. nocase_ltb a.account.address b.account.address) r.accounts)

  unfoldable pub account_config : String → Repository Text → Result (Option (Account × Json))
  unfolding account_config_from_row
  account_config account_id r = elim (find account_key account_id r.accounts) [
    | none ↦ ok none
    | some row ↦ account_config_from_row row >>= λ config. ok (some config)
  ]

  unfoldable pub remove_account : String → Repository Text → Result (Repository Text × ℕ)
  remove_account id r = do
    guard (has account_key id r.accounts) not_found
    bump_revision (
        delete_account_row id (record r {
          operations = remove_account_operations serde id r.operations;
          tasks = delete (λ task. task.account == id) r.tasks;
          events = delete (λ event. in_calendar_scope id event.calendar_id) r.events;
        }))
