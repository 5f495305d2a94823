-- ===== src/Storage/Accounts/Lookup.antt =====
-- What `upsert_account_config` of crates/quickmaild/src/storage.rs leaves behind.
use quick_mail.Prelude.{
  ℕ, ℤ, String, false, ◌&&◌, ◌≡◌, refl, Option, none, some, ◌==◌, string_eq, beq_refl,
}
use quick_mail.Models.{Account}
use quick_mail.Storage.Table.{find, upsert}
use quick_mail.Storage.Table.Laws.{find-upsert, find-key}
use quick_mail.Storage.Schema.{AccountRow, Repository, account_key, fits_i64}
use quick_mail.Storage.Serde.{Serde}
use quick_mail.Storage.Revision.{bump_revision-Ensures}
use quick_mail.Storage.Result.{ok, Ensures-guard, Ensures-elim}
use quick_mail.Storage.Accounts.{
  merge_account, account_auth_state, upsert_account_config, account_config, account_config_from_row,
}

module _ {Json Text : Type 0} (serde : Serde Json Text) where
  abbrev new_row : ℤ → Account → Json → AccountRow Text
  new_row now account config = record {
    account = account;
    config_json = serde.value.to_string config;
    auth_state = "ready";
    auth_error = none;
    updated_at = now;
  }

  stored_accounts :
      (now : ℤ) (account : Account) (config : Json) (r r' : Repository Text) (n : ℕ)
      → upsert_account_config serde now account config r ≡ ok (r', n)
      → r'.accounts ≡ upsert account_key merge_account (new_row now account config) r.accounts
  unfolding upsert_account_config
  stored_accounts now account config r r' n h =
      Ensures-elim (upsert_account_config serde now account config r)
        (Ensures-guard (fits_i64 account.unread && fits_i64 account.total) _ (λ _.
          bump_revision-Ensures
            (λ q.
              q.accounts ≡ upsert account_key merge_account (new_row now account config) r.accounts)
            _ refl))
        h

  -- What is read under the key of an account whose row is the new one, merged or not.
  abbrev Shows : Account → Json → Option (AccountRow Text) → Repository Text → Type 0
  Shows account config before r =
      (account_config serde account.id r ≡ ok (some (account, config)))
      × (account_auth_state account.id r ≡ elim before [
        | none ↦ some ("ready", none)
        | some old ↦ some (old.auth_state, old.auth_error)
      ])

  abbrev OfAccount : String → Option (AccountRow Text) → Type 0
  OfAccount id none = Unit
  OfAccount id (some old) = old.account.id ≡ id

  shows :
      (now : ℤ) (account : Account) (config : Json) (r : Repository Text)
      (before : Option (AccountRow Text))
      → OfAccount account.id before
      → find account_key account.id r.accounts
        ≡ some (elim before [
          | none ↦ new_row now account config
          | some old ↦ merge_account old (new_row now account config)
        ])
      → Shows account config before r
  unfolding account_config account_auth_state account_config_from_row merge_account
  shows now account config r none same after = (
    rw (account_config, after, account_config_from_row, serde.value.round_trip config),
    rw (account_auth_state, after),
  )
  shows now account config r (some old) same after = (
    rw (account_config, after, account_config_from_row, serde.value.round_trip config, same),
    rw (account_auth_state, after),
  )

  -- `upsert_account_config` stores the account and its configuration, keeps the login state that
  -- the account had (a new account is ready), and shows every other account as before.
  pub upsert_account_config-lookup :
      (now : ℤ) (account : Account) (config : Json) (r r' : Repository Text) (n : ℕ)
      (other : String)
      → (account.id == other) ≡ false
      → upsert_account_config serde now account config r ≡ ok (r', n)
      → (account_config serde account.id r' ≡ ok (some (account, config)))
        × (account_auth_state account.id r' ≡ elim (account_auth_state account.id r) [
          | none ↦ some ("ready", none)
          | some state ↦ some state
        ])
        × (account_config serde other r' ≡ account_config serde other r)
        × (account_auth_state other r' ≡ account_auth_state other r)
  unfolding account_config account_auth_state merge_account
  upsert_account_config-lookup now account config r r' n other apart h =
      let rows = stored_accounts now account config r r' n h in
      let mine = rw (beq_refl account.id) at (
        find-upsert account_key merge_account merge_keeps account.id (new_row now account config)
          r.accounts) in
      let theirs = rw apart at (
        find-upsert account_key merge_account merge_keeps other (new_row now account config)
          r.accounts) in
      let (config_is, state_is) = go (find account_key account.id r.accounts) refl (rw rows mine) in
      (
        config_is,
        state_is,
        rw (account_config, rows, theirs),
        rw (account_auth_state, rows, theirs),
      )
    where
      merge_keeps :
          (old new : AccountRow Text) → (merge_account old new).account.id ≡ old.account.id
      merge_keeps old new = refl

      go :
          (before : Option (AccountRow Text))
          → find account_key account.id r.accounts ≡ before
          → find account_key account.id r'.accounts
            ≡ some (elim before [
              | none ↦ new_row now account config
              | some old ↦ merge_account old (new_row now account config)
            ])
          → (account_config serde account.id r' ≡ ok (some (account, config)))
            × (account_auth_state account.id r' ≡ elim (account_auth_state account.id r) [
              | none ↦ some ("ready", none)
              | some state ↦ some state
            ])
      go none e after = rw e (shows now account config r' none tt after)
      go (some old) e after = rw e (
          shows now account config r' (some old) (find-key account_key account.id r.accounts e)
            after)
