-- ===== src/Storage/Integrity/SyncPages.antt =====
-- A page of a mailbox's synchronisation keeps the integrity of the cache.
use quick_mail.Prelude.{
  ℤ, String, Bool, true, false, not, ◌≡◌, refl, Option, none, some, List, [], ◌∷◌, All, all,
  string_eq, pair_eq,
}
use quick_mail.Models.Ids.{is_normalized_message_id}
use quick_mail.Provider.{MailboxSyncPage}
use quick_mail.Storage.Table.{delete}
use quick_mail.Storage.Table.Laws.{upsert-IsKeyed, upsert-All, delete-IsKeyed, delete-All}
use quick_mail.Storage.Schema.{SyncRow, Repository, sync_key}
use quick_mail.Storage.Serde.{Serde}
use quick_mail.Storage.SyncPage.{
  reset_mailbox, delete_removed, store_cursor, apply_checked_page, apply_mailbox_sync_page,
  removal_is_valid, merge_sync, is_no_op, sync_cursor_is_invalid,
}
use quick_mail.Storage.Result.{Ensures-bind, Ensures-guard, Ensures-if}
use quick_mail.Storage.Integrity.{IsSound, HasMailbox}
use quick_mail.Storage.Integrity.Tables.{
  set_sync_state, Sound, bump_revision-Sound, read_revision-Sound,
}
use quick_mail.Storage.Integrity.Messages.{
  delete_messages, upsert_each_summary-Sound, local-normalized,
}

module _ {Text : Type 0} where
  delete_removed-Sound :
      (account_id mailbox_id : String) (ids : List String) (r : Repository Text)
      → IsSound r
      → IsSound (record r { messages = delete_removed account_id mailbox_id ids r.messages })
  unfolding delete_removed
  delete_removed-Sound account_id mailbox_id [] r h = h
  delete_removed-Sound account_id mailbox_id (id ∷ ids) r h =
      delete_removed-Sound account_id mailbox_id ids _ (delete_messages _ r h)

  delete_sync :
      (test : SyncRow → Bool) (r : Repository Text)
      → IsSound r
      → IsSound (record r { sync_state = delete test r.sync_state })
  delete_sync test r h =
      set_sync_state r h _ (delete-IsKeyed sync_key test r.sync_state h.sync_keyed) (
        delete-All (λ s. HasMailbox r.mailboxes s.account_id s.mailbox_id) test r.sync_state
          h.sync_owned)

  reset_mailbox-Sound :
      (account_id mailbox_id : String) (reset : Bool) (r : Repository Text)
      → IsSound r
      → IsSound (reset_mailbox account_id mailbox_id reset r)
  unfolding reset_mailbox
  reset_mailbox-Sound account_id mailbox_id false r h = h
  reset_mailbox-Sound account_id mailbox_id true r h = delete_sync _ _ (delete_messages _ r h)

  reset_mailbox-mailboxes :
      (account_id mailbox_id : String) (reset : Bool) (r : Repository Text)
      → (reset_mailbox account_id mailbox_id reset r).mailboxes ≡ r.mailboxes
  unfolding reset_mailbox
  reset_mailbox-mailboxes account_id mailbox_id false r = refl
  reset_mailbox-mailboxes account_id mailbox_id true r = refl

  store_cursor-Sound :
      (now : ℤ) (account_id mailbox_id : String) (cursor : Option String) (r : Repository Text)
      → HasMailbox r.mailboxes account_id mailbox_id
      → IsSound r
      → IsSound (store_cursor now account_id mailbox_id cursor r)
  unfolding store_cursor
  store_cursor-Sound now account_id mailbox_id none r known h = h
  store_cursor-Sound now account_id mailbox_id (some cursor) r known h =
      set_sync_state r h _ (upsert-IsKeyed sync_key merge_sync (λ old new. refl) _ _ h.sync_keyed) (
        upsert-All sync_key merge_sync (λ old new. refl)
          (λ s. HasMailbox r.mailboxes s.account_id s.mailbox_id) _ _ known (λ old owned _. owned)
          h.sync_owned)

module _ {Json Text : Type 0} (serde : Serde Json Text) where
  apply_checked_page-Sound :
      (now : ℤ) (account_id mailbox_id : String) (page : MailboxSyncPage Json) (r : Repository Text)
      → All (λ s. is_normalized_message_id s.account_id s.id ≡ true) page.messages
      → IsSound r
      → Sound (apply_checked_page serde now account_id mailbox_id page r)
  unfolding apply_checked_page
  apply_checked_page-Sound now account_id mailbox_id page r n h = Ensures-guard _ _ (λ known.
      Ensures-guard _ _ (λ _.
        Ensures-bind
          (upsert_each_summary-Sound serde now page.messages _ n (
            delete_removed-Sound account_id mailbox_id page.removed_message_ids _
              (reset_mailbox-Sound account_id mailbox_id page.reset r h)))
          (λ filled sound. bump_revision-Sound _ (
            store_cursor-Sound now account_id mailbox_id page.cursor filled
              (rw (sound.1, reset_mailbox-mailboxes account_id mailbox_id page.reset r) known)
              sound.0))))

  pub apply_mailbox_sync_page-Sound :
      (now : ℤ) (account_id mailbox_id : String) (page : MailboxSyncPage Json) (r : Repository Text)
      → IsSound r
      → Sound (apply_mailbox_sync_page serde now account_id mailbox_id page r)
  unfolding apply_mailbox_sync_page
  apply_mailbox_sync_page-Sound now account_id mailbox_id page r h = Ensures-guard _ _ (λ local.
      Ensures-guard (all (removal_is_valid account_id page.messages) page.removed_message_ids) _
        (λ _. Ensures-guard (not (sync_cursor_is_invalid page.cursor)) _ (λ _.
          Ensures-if (is_no_op page) (λ _. read_revision-Sound r h)
            (λ _.
              apply_checked_page-Sound now account_id mailbox_id page r
                (local-normalized account_id mailbox_id page.messages local) h))))
