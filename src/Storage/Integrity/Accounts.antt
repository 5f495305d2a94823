-- ===== src/Storage/Integrity/Accounts.antt =====
-- The operations on accounts, mailboxes and drafts keep the integrity of the cache.
use quick_mail.Prelude.{
  ℕ, ℤ, String, Bool, true, false, ◌&&◌, ◌||◌, ◌≡◌, refl, ap, Option, List, [], ◌∷◌, filter,
  string_eq, pair_eq, ◌==◌, arith, if◌then◌else◌,
}
use quick_mail.Models.{Account, Mailbox}
use quick_mail.Provider.{OutgoingMessage}
use quick_mail.Storage.Table.{IsKeyed, has, update, delete}
use quick_mail.Storage.Table.Laws.{
  upsert-IsKeyed, update-IsKeyed, delete-IsKeyed, has-upsert, has-update, has-delete_keep,
  upsert-All, delete-All_kept, delete-All,
}
use quick_mail.Storage.Schema.{
  AccountRow, OperationRow, Repository, account_key, mailbox_key, sync_key, message_key,
  operation_key, draft_key, fits_i64,
}
use quick_mail.Storage.Serde.{Serde}
use quick_mail.Storage.Scope.{
  delete_owned, remove_account_operations, operation_payload_belongs_to_account, is_owned_kind,
}
use quick_mail.Storage.Accounts.{
  merge_account, update_account_counts, set_account_auth_state, delete_account_row,
  upsert_account_config, remove_account,
}
use quick_mail.Storage.Mailboxes.{
  merge_mailbox, mailbox_to_row, upsert_each_mailbox, upsert_mailboxes,
}
use quick_mail.Storage.Drafts.{merge_draft, save_draft, delete_draft}
use quick_mail.Storage.Result.{Ensures, Ensures-bind, Ensures-guard, returns}
use quick_mail.Storage.Integrity.{IsSound, HasAccount, HasMailbox, IsOwned}
use quick_mail.Storage.Integrity.Tables.{
  set_accounts, set_mailboxes, set_drafts, set_operations, Sound, bump_revision-Sound,
  read_revision-Sound,
}
use quick_mail.Storage.Integrity.AgendaCalls.{delete_tasks, delete_events}

module _ {Text : Type 0} where
  -- Columns of accounts that change, with the key as it was.
  update_accounts :
      (test : AccountRow Text → Bool) (f : AccountRow Text → AccountRow Text)
      → ((row : AccountRow Text) → (f row).account.id ≡ row.account.id)
      → (r : Repository Text) → IsSound r
      → IsSound (record r { accounts = update test f r.accounts })
  update_accounts test f keeps r h =
      set_accounts r h _ (update-IsKeyed account_key test f keeps r.accounts h.accounts_keyed)
        (λ a known. rw (has-update account_key test f keeps a r.accounts) known)

  pub update_account_counts-Sound :
      (now : ℤ) (id : String) (unread total : ℕ) (r : Repository Text)
      → IsSound r
      → Sound (update_account_counts now id unread total r)
  unfolding update_account_counts
  update_account_counts-Sound now id unread total r h =
      Ensures-guard (fits_i64 unread && fits_i64 total) _ (λ _.
        Ensures-guard (has account_key id r.accounts) _
          (λ _. bump_revision-Sound _ (update_accounts _ _ (λ row. refl) r h)))

  pub set_account_auth_state-Sound :
      (now : ℤ) (id state : String) (error : Option String) (r : Repository Text)
      → IsSound r
      → Sound (set_account_auth_state now id state error r)
  unfolding set_account_auth_state
  set_account_auth_state-Sound now id state error r h =
      Ensures-guard (state == "ready" || (state == "needs_auth" || state == "error")) _ (λ _.
        Ensures-guard (has account_key id r.accounts) _
          (λ _. bump_revision-Sound _ (update_accounts _ _ (λ row. refl) r h)))

  -- The rows of another account still find it.
  other_account :
      (id a : String) (r : Repository Text)
      → HasAccount r.accounts a
      → (a == id) ≡ false
      → HasAccount (delete (λ row. row.account.id == id) r.accounts) a
  other_account id a r known other =
      rw
        (has-delete_keep account_key (λ row. row.account.id == id) a r.accounts
          (λ row same. rw same other))
        known

  other_mailbox :
      (id a m : String) (r : Repository Text)
      → HasMailbox r.mailboxes a m
      → (a == id) ≡ false
      → HasMailbox (delete (λ row. row.account_id == id) r.mailboxes) a m
  other_mailbox id a m r known other =
      rw
        (has-delete_keep mailbox_key (λ row. row.account_id == id) (a, m) r.mailboxes
          (λ row same. rw (ap (λ p. p.0) same) other))
        known

  -- Deleting an account takes everything along that refers to it.
  delete_account_row-Sound :
      (id : String) (r : Repository Text) → IsSound r → IsSound (delete_account_row id r)
  unfolding delete_account_row
  delete_account_row-Sound id r h = record {
    accounts_keyed = delete-IsKeyed account_key _ r.accounts h.accounts_keyed;
    mailboxes_keyed = delete-IsKeyed mailbox_key _ r.mailboxes h.mailboxes_keyed;
    sync_keyed = delete-IsKeyed sync_key _ r.sync_state h.sync_keyed;
    messages_keyed = delete-IsKeyed message_key _ r.messages h.messages_keyed;
    tasks_keyed = h.tasks_keyed;
    events_keyed = h.events_keyed;
    operations_keyed = h.operations_keyed;
    drafts_keyed = delete-IsKeyed draft_key _ r.drafts h.drafts_keyed;
    mailboxes_owned =
        delete-All_kept (λ m. HasAccount r.accounts m.account_id) _ _ r.mailboxes
          (λ m known other. other_account id m.account_id r known other) h.mailboxes_owned;
    sync_owned =
        delete-All_kept (λ s. HasMailbox r.mailboxes s.account_id s.mailbox_id) _ _ r.sync_state
          (λ s known other. other_mailbox id s.account_id s.mailbox_id r known other) h.sync_owned;
    messages_owned =
        delete-All_kept (IsOwned r.accounts) _ _ r.messages
          (λ m owned other. (other_account id m.account_id r owned.0 other, owned.1))
          h.messages_owned;
    drafts_owned =
        delete-All_kept (λ d. HasAccount r.accounts d.account_id) _ _ r.drafts
          (λ d known other. other_account id d.account_id r known other) h.drafts_owned;
    tasks_external = h.tasks_external;
    events_external = h.events_external;
  }

  upsert_each_mailbox-Sound :
      (mailboxes : List Mailbox) (r : Repository Text)
      → IsSound r
      → Ensures IsSound (upsert_each_mailbox mailboxes r)
  unfolding upsert_each_mailbox mailbox_to_row merge_mailbox
  upsert_each_mailbox-Sound [] r h = returns r h
  upsert_each_mailbox-Sound (m ∷ mailboxes) r h =
      Ensures-guard (fits_i64 m.unread && fits_i64 m.total) _ (λ _.
        Ensures-guard (has account_key m.account_id r.accounts) _ (λ known.
          upsert_each_mailbox-Sound mailboxes _ (
            set_mailboxes r h _
              (upsert-IsKeyed mailbox_key merge_mailbox (λ old new. refl) (mailbox_to_row m) _
                h.mailboxes_keyed)
              (upsert-All mailbox_key merge_mailbox (λ old new. refl)
                (λ row. HasAccount r.accounts row.account_id) (mailbox_to_row m) r.mailboxes known
                (λ old owned _. owned) h.mailboxes_owned)
              (λ a b known.
                rw
                  (has-upsert mailbox_key merge_mailbox (λ old new. refl) (a, b) (mailbox_to_row m)
                    r.mailboxes)
                  (ground arith)))))

  pub upsert_mailboxes-Sound :
      (mailboxes : List Mailbox) (r : Repository Text)
      → IsSound r
      → Sound (upsert_mailboxes mailboxes r)
  unfolding upsert_mailboxes
  upsert_mailboxes-Sound [] r h = read_revision-Sound r h
  upsert_mailboxes-Sound (m ∷ mailboxes) r h =
      Ensures-bind (upsert_each_mailbox-Sound (m ∷ mailboxes) r h) bump_revision-Sound

  pub delete_draft-Sound :
      (id : String) (r : Repository Text) → IsSound r → Sound (delete_draft id r)
  unfolding delete_draft
  delete_draft-Sound id r h = Ensures-guard (has draft_key id r.drafts) _ (λ _.
      bump_revision-Sound _ (
        set_drafts r h _ (delete-IsKeyed draft_key _ r.drafts h.drafts_keyed)
          (delete-All (λ d. HasAccount r.accounts d.account_id) _ r.drafts h.drafts_owned)))

module _ {Json Text : Type 0} (serde : Serde Json Text) where
  pub upsert_account_config-Sound :
      (now : ℤ) (account : Account) (config : Json) (r : Repository Text)
      → IsSound r
      → Sound (upsert_account_config serde now account config r)
  unfolding upsert_account_config merge_account
  upsert_account_config-Sound now account config r h =
      Ensures-guard (fits_i64 account.unread && fits_i64 account.total) _ (λ _.
        bump_revision-Sound _ (
          set_accounts r h _
            (upsert-IsKeyed account_key merge_account (λ old new. refl) _ r.accounts
              h.accounts_keyed)
            (λ a known.
              rw (has-upsert account_key merge_account (λ old new. refl) a _ r.accounts)
                (ground arith))))

  delete_owned-IsKeyed :
      (id : String) (selected rows : List (OperationRow Text))
      → IsKeyed operation_key rows
      → IsKeyed operation_key (delete_owned serde id selected rows)
  unfolding delete_owned
  delete_owned-IsKeyed id [] rows h = h
  delete_owned-IsKeyed id (o ∷ selected) rows h =
      delete_owned-IsKeyed id selected _
        (elim (operation_payload_belongs_to_account serde o.kind o.payload_json id)
          as (λ b.
            IsKeyed operation_key
              (if b then delete (λ q. operation_key q == o.id) rows else rows)) [
                | true ↦ delete-IsKeyed operation_key _ rows h
                | false ↦ h
              ])

  pub remove_account-Sound :
      (id : String) (r : Repository Text) → IsSound r → Sound (remove_account serde id r)
  unfolding remove_account remove_account_operations
  remove_account-Sound id r h = Ensures-guard (has account_key id r.accounts) _ (λ _.
      bump_revision-Sound _ (
        delete_account_row-Sound id _ (
          delete_events _ _ (
            delete_tasks _ _ (
              set_operations r h _ (
                delete_owned-IsKeyed id (filter (λ o. is_owned_kind o.kind) r.operations) _
                  h.operations_keyed))))))

  pub save_draft-Sound :
      (now : ℤ) (uuid : String) (id : Option String) (message : OutgoingMessage)
      (r : Repository Text)
      → IsSound r
      → Ensures (λ p. IsSound p.0) (save_draft serde now uuid id message r)
  unfolding save_draft merge_draft
  save_draft-Sound now uuid id message r h =
      Ensures-guard (has account_key message.account_id r.accounts) _ (λ known.
        Ensures-bind
          (bump_revision-Sound _ (
            set_drafts r h _
              (upsert-IsKeyed draft_key merge_draft (λ old new. refl) _ r.drafts h.drafts_keyed)
              (upsert-All draft_key merge_draft (λ old new. refl)
                (λ d. HasAccount r.accounts d.account_id) _ r.drafts known (λ old owned _. known)
                h.drafts_owned)))
          (λ p sound. returns _ sound))
