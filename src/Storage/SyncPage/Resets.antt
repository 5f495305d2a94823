-- ===== src/Storage/SyncPage/Resets.antt =====
-- The cursor and the reset of `apply_mailbox_sync_page` of crates/quickmaild/src/storage.rs.
use quick_mail.Prelude.{
  ℕ, ℤ, String, true, not, ◌||◌, ◌≡◌, refl, ap, Option, none, some, List, [], ◌∷◌, All, all,
  string_eq, pair_eq, beq_refl, arith,
}
use quick_mail.Models.{MessageSummary}
use quick_mail.Provider.{MailboxSyncPage}
use quick_mail.Storage.Table.{find, has}
use quick_mail.Storage.Table.Laws.{upsert-All, delete-All, delete-All_kept, find-upsert}
use quick_mail.Storage.Schema.{
  SyncRow, MessageRow, Repository, message_key, mailbox_key, sync_key, account_key,
}
use quick_mail.Storage.Serde.{Serde}
use quick_mail.Storage.Revision.{bump_revision-Ensures}
use quick_mail.Storage.Result.{
  ok, sqlite, Ensures, Ensures-bind, Ensures-guard, Ensures-if, Ensures-Unit, Ensures-elim, returns,
}
use quick_mail.Storage.Messages.{merge_summary}
use quick_mail.Storage.Mailboxes.{mailbox_sync_cursor}
use quick_mail.Storage.SyncPage.{
  in_mailbox, removal_is_local, reset_mailbox, delete_removed, store_cursor, message_is_local,
  removal_is_valid, is_no_op, summary_to_row, upsert_each_summary, apply_checked_page,
  apply_mailbox_sync_page, sync_cursor_is_invalid, merge_sync,
}
use quick_mail.Storage.SyncPage.Contents.{names}

module _ {Json Text : Type 0} (serde : Serde Json Text) (now : ℤ)
    (account_id mailbox_id : String) where
  -- What holds of the rows of the table, and of every row of the page, holds after the page.
  upsert_each_summary-rows :
      (Q : MessageRow Text → Type 0) (messages : List (MessageSummary Json)) (r : Repository Text)
      → ((row : MessageRow Text) → names messages row.id ≡ true → Q row)
      → All Q r.messages
      → Ensures (λ q. All Q q.messages) (upsert_each_summary serde now messages r)
  unfolding upsert_each_summary merge_summary summary_to_row
  upsert_each_summary-rows Q [] r named h = returns r h
  upsert_each_summary-rows Q (m ∷ messages) r named h =
      Ensures-guard (has account_key m.account_id r.accounts) sqlite (λ _.
        upsert_each_summary-rows Q messages _ (λ row there. named row (ground (arith, there)))
          (upsert-All message_key merge_summary (λ old new. refl) Q (summary_to_row serde now m)
            r.messages (named _ (ground (arith, beq_refl m.id)))
            (λ old _ same. named _ (rw same (ground (arith, beq_refl m.id)))) h))

  -- A row that the mailbox has only if the page names it.
  abbrev Renewed : List (MessageSummary Json) → MessageRow Text → Type 0
  Renewed messages row =
      (not (in_mailbox account_id mailbox_id row) || names messages row.id) ≡ true

  delete_removed-All :
      (Q : MessageRow Text → Type 0) (ids : List String) (rows : List (MessageRow Text))
      → All Q rows
      → All Q (delete_removed account_id mailbox_id ids rows)
  unfolding delete_removed
  delete_removed-All Q [] rows h = h
  delete_removed-All Q (id ∷ ids) rows h = delete_removed-All Q ids _ (delete-All Q _ rows h)

  reset_mailbox-Renewed :
      (messages : List (MessageSummary Json)) (r : Repository Text)
      → All (Renewed messages) (reset_mailbox account_id mailbox_id true r).messages
  unfolding reset_mailbox
  reset_mailbox-Renewed messages r =
      delete-All_kept (λ _. Unit) (Renewed messages) (in_mailbox account_id mailbox_id) r.messages
        (λ row _ other. ground (arith, other)) (everything r.messages)
    where
      everything : (rows : List (MessageRow Text)) → All (λ _. Unit {0}) rows
      everything [] = tt
      everything (row ∷ rows) = (tt, everything rows)

  store_cursor-rows :
      (cursor : Option String) (r : Repository Text)
      → (store_cursor now account_id mailbox_id cursor r).messages ≡ r.messages
  unfolding store_cursor
  store_cursor-rows none r = refl
  store_cursor-rows (some cursor) r = refl

  abbrev stored_row : String → SyncRow
  stored_row cursor = record {
    account_id = account_id;
    mailbox_id = mailbox_id;
    cursor = cursor;
    updated_at = now;
  }

  merged_cursor :
      (before : Option SyncRow) (cursor : String)
      → (elim before as (λ _. SyncRow) [
        | none ↦ stored_row cursor
        | some old ↦ merge_sync old (stored_row cursor)
      ]).cursor
        ≡ cursor
  merged_cursor none cursor = refl
  merged_cursor (some old) cursor = refl

  mailbox_sync_cursor-store_cursor :
      (cursor : String) (r : Repository Text) (n : ℕ)
      → mailbox_sync_cursor account_id mailbox_id
          (record (store_cursor now account_id mailbox_id (some cursor) r) { revision = n })
        ≡ some cursor
  unfolding store_cursor mailbox_sync_cursor
  mailbox_sync_cursor-store_cursor cursor r n =
      let key : String × String = (account_id, mailbox_id) in
      let stored =
        rw (beq_refl key) at (
          find-upsert sync_key merge_sync (λ old new. refl) key (stored_row cursor) r.sync_state) in
      rw stored (ap some (merged_cursor (find sync_key key r.sync_state) cursor))

  -- After a page with a cursor, the mailbox has that cursor: the next synchronisation goes on from
  -- there.
  pub mailbox_sync_cursor-apply_mailbox_sync_page :
      (page : MailboxSyncPage Json) (cursor : String) (r r' : Repository Text) (n : ℕ)
      → page.cursor ≡ some cursor
      → apply_mailbox_sync_page serde now account_id mailbox_id page r ≡ ok (r', n)
      → mailbox_sync_cursor account_id mailbox_id r' ≡ some cursor
  unfolding apply_mailbox_sync_page apply_checked_page is_no_op
  mailbox_sync_cursor-apply_mailbox_sync_page page cursor r r' n given h =
      Ensures-elim {P = λ p. mailbox_sync_cursor account_id mailbox_id p.0 ≡ some cursor}
        (apply_mailbox_sync_page serde now account_id mailbox_id page r)
        (Ensures-guard (all (message_is_local account_id mailbox_id) page.messages) _ (λ _.
          Ensures-guard (all (removal_is_valid account_id page.messages) page.removed_message_ids) _
            (λ _. Ensures-guard (not (sync_cursor_is_invalid page.cursor)) _ (λ _.
              Ensures-if (is_no_op page) (λ nothing. absurd (ground (arith, nothing, given)))
                (λ _. stored)))))
        h
    where
      stored :
          Ensures
            (λ p. mailbox_sync_cursor account_id mailbox_id p.0 ≡ some cursor)
            (apply_checked_page serde now account_id mailbox_id page r)
      stored = Ensures-guard (has mailbox_key (account_id, mailbox_id) r.mailboxes) _ (λ _.
          Ensures-guard (all (removal_is_local account_id mailbox_id r) page.removed_message_ids) _
            (λ _. Ensures-bind {Q = λ _. Unit} (Ensures-Unit _) (λ q _.
              bump_revision-Ensures (λ p. mailbox_sync_cursor account_id mailbox_id p ≡ some cursor)
                (store_cursor now account_id mailbox_id page.cursor q)
                (rw given (mailbox_sync_cursor-store_cursor cursor q _)))))

  -- After a page that resets its mailbox, every cached message of the mailbox is one that the page
  -- names.
  pub apply_mailbox_sync_page-reset :
      (page : MailboxSyncPage Json) (r r' : Repository Text) (n : ℕ)
      → page.reset ≡ true
      → apply_mailbox_sync_page serde now account_id mailbox_id page r ≡ ok (r', n)
      → All
          (λ row. (not (in_mailbox account_id mailbox_id row) || names page.messages row.id) ≡ true)
          r'.messages
  unfolding apply_mailbox_sync_page apply_checked_page is_no_op
  apply_mailbox_sync_page-reset page r r' n reset h =
      Ensures-elim {P = λ p. All (Renewed page.messages) p.0.messages}
        (apply_mailbox_sync_page serde now account_id mailbox_id page r)
        (Ensures-guard (all (message_is_local account_id mailbox_id) page.messages) _ (λ _.
          Ensures-guard (all (removal_is_valid account_id page.messages) page.removed_message_ids) _
            (λ _. Ensures-guard (not (sync_cursor_is_invalid page.cursor)) _ (λ _.
              Ensures-if (is_no_op page) (λ nothing. absurd (ground (arith, nothing, reset)))
                (λ _. stored)))))
        h
    where
      stored :
          Ensures
            (λ p. All (Renewed page.messages) p.0.messages)
            (apply_checked_page serde now account_id mailbox_id page r)
      stored = Ensures-guard (has mailbox_key (account_id, mailbox_id) r.mailboxes) _ (λ _.
          Ensures-guard (all (removal_is_local account_id mailbox_id r) page.removed_message_ids) _
            (λ _.
              Ensures-bind
                (upsert_each_summary-rows (Renewed page.messages) page.messages _
                  (λ row there. ground (arith, there))
                  (delete_removed-All (Renewed page.messages) page.removed_message_ids _
                    (rw reset (reset_mailbox-Renewed page.messages r))))
                (λ q renewed.
                  bump_revision-Ensures (λ p. All (Renewed page.messages) p.messages) _
                    (rw (store_cursor-rows page.cursor q) renewed))))
