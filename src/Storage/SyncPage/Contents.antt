-- ===== src/Storage/SyncPage/Contents.antt =====
-- What the cache holds of a mailbox after `apply_mailbox_sync_page` of
-- crates/quickmaild/src/storage.rs.
use quick_mail.Prelude.{
  ℕ, ℤ, String, Bool, true, false, not, ◌||◌, ◌≡◌, refl, ◌∙◌, Option, none, some, List, [], ◌∷◌,
  All, All-imp, any, all, string_eq, pair_eq, ◌==◌, beq_refl, arith,
}
use quick_mail.Models.{MessageSummary}
use quick_mail.Provider.{MailboxSyncPage}
use quick_mail.Storage.Table.{has, IsKeyed}
use quick_mail.Storage.Table.Laws.{has-upsert, delete-All, upsert-All}
use quick_mail.Storage.Schema.{Repository, message_key, mailbox_key, account_key}
use quick_mail.Storage.Serde.{Serde}
use quick_mail.Storage.Revision.{bump_revision-Ensures, read_revision-Ensures}
use quick_mail.Storage.Result.{
  ok, sqlite, Ensures, Ensures-bind, Ensures-guard, Ensures-if, Ensures-imp, Ensures-elim, returns,
}
use quick_mail.Storage.Messages.{merge_summary}
use quick_mail.Storage.SyncPage.{
  removal_is_local, reset_mailbox, store_cursor, message_is_local, removal_is_valid, is_no_op,
  is_empty, summary_to_row, upsert_each_summary, apply_checked_page, apply_mailbox_sync_page,
  sync_cursor_is_invalid,
}
use quick_mail.Storage.SyncPage.Effects.{
  all-All, Resident, removal_is_local-Resident, delete_removed-gone,
}

abbrev pub names : {Json : Type 0} → List (MessageSummary Json) → String → Bool
names messages id = any (λ m. m.id == id) messages

module _ {Json : Type 0} where
  names-All :
      (P : String → Type 0) (messages : List (MessageSummary Json))
      → ((id : String) → names messages id ≡ true → P id)
      → All (λ m. P m.id) messages
  names-All P [] h = tt
  names-All P (m ∷ messages) h = (
    h m.id (ground (arith, beq_refl m.id)),
    names-All P messages (λ id there. h id (ground (arith, there))),
  )

module _ {Json Text : Type 0} where
  -- What the page says of the ids: its messages are there, its removals are not.
  abbrev pub Holds : List (MessageSummary Json) → List String → Repository Text → Type 0
  Holds messages removed r =
      All (λ m. has message_key m.id r.messages ≡ true) messages
      × All (λ id. has message_key id r.messages ≡ false) removed

module _ {Json Text : Type 0} (serde : Serde Json Text) (now : ℤ) where
  -- The ids of the table after a page's messages are stored.
  upsert_each_summary-ids :
      (messages : List (MessageSummary Json)) (r : Repository Text)
      → Ensures
          (λ q.
            (id : String)
            → has message_key id q.messages ≡ (names messages id || has message_key id r.messages))
          (upsert_each_summary serde now messages r)
  unfolding upsert_each_summary merge_summary summary_to_row
  upsert_each_summary-ids [] r = returns r (λ id. refl)
  upsert_each_summary-ids (m ∷ messages) r =
      Ensures-guard (has account_key m.account_id r.accounts) sqlite (λ _.
        Ensures-imp
          (λ q h id. ground (
            arith,
            h id,
            has-upsert message_key merge_summary (λ old new. refl) id (summary_to_row serde now m)
                r.messages,
          ))
          (upsert_each_summary-ids messages _))

  -- What holds of the ids of the table and of the page holds after the page is stored.
  upsert_each_summary-All :
      (P : String → Type 0) (messages : List (MessageSummary Json)) (r : Repository Text)
      → All (λ m. P m.id) messages
      → All (λ row. P row.id) r.messages
      → Ensures (λ q. All (λ row. P row.id) q.messages) (upsert_each_summary serde now messages r)
  unfolding upsert_each_summary merge_summary summary_to_row
  upsert_each_summary-All P [] r named h = returns r h
  upsert_each_summary-All P (m ∷ messages) r named h =
      Ensures-guard (has account_key m.account_id r.accounts) sqlite (λ _.
        upsert_each_summary-All P messages _ named.1 (
          upsert-All message_key merge_summary (λ old new. refl) (λ row. P row.id)
            (summary_to_row serde now m) r.messages named.0 (λ old p same. p) h))

  module _ (account_id mailbox_id : String) where
    store_cursor-messages :
        (cursor : Option String) (r : Repository Text)
        → (store_cursor now account_id mailbox_id cursor r).messages ≡ r.messages
    unfolding store_cursor
    store_cursor-messages none r = refl
    store_cursor-messages (some cursor) r = refl

    reset-Resident :
        (reset : Bool) (id : String) (r : Repository Text)
        → All (Resident account_id mailbox_id id) r.messages
        → All
            (Resident account_id mailbox_id id)
            (reset_mailbox account_id mailbox_id reset r).messages
    unfolding reset_mailbox
    reset-Resident false id r h = h
    reset-Resident true id r h = delete-All (Resident account_id mailbox_id id) _ r.messages h

    not_named :
        (messages : List (MessageSummary Json)) (ids : List String)
        → All (λ id. removal_is_valid account_id messages id ≡ true) ids
        → All (λ id. names messages id ≡ false) ids
    unfolding removal_is_valid
    not_named messages ids h = All-imp _ _ ids (λ id valid. ground (arith, valid)) h

    both :
        {A : Type 0} (P Q : A → Type 0) (xs : List A)
        → All P xs
        → All Q xs
        → All (λ x. P x × Q x) xs
    both P Q [] h k = tt
    both P Q (x ∷ xs) h k = ((h.0, k.0), both P Q xs h.1 k.1)

    apply_checked_page-Holds :
        (page : MailboxSyncPage Json) (r : Repository Text)
        → IsKeyed message_key r.messages
        → All (λ id. names page.messages id ≡ false) page.removed_message_ids
        → Ensures
            (λ p. Holds page.messages page.removed_message_ids p.0)
            (apply_checked_page serde now account_id mailbox_id page r)
    unfolding apply_checked_page removal_is_local
    apply_checked_page-Holds page r keyed unnamed =
        Ensures-guard (has mailbox_key (account_id, mailbox_id) r.mailboxes) _ (λ _.
          Ensures-guard (all (removal_is_local account_id mailbox_id r) page.removed_message_ids) _
            (λ local.
              let gone =
                delete_removed-gone account_id mailbox_id page.removed_message_ids
                  (reset_mailbox account_id mailbox_id page.reset r).messages
                  (All-imp _ _ page.removed_message_ids
                    (λ id is_local. reset-Resident page.reset id r (
                      removal_is_local-Resident account_id mailbox_id id r.messages keyed is_local))
                    (all-All (removal_is_local account_id mailbox_id r) page.removed_message_ids
                      local)) in
              Ensures-bind (upsert_each_summary-ids page.messages _) (λ q ids.
                bump_revision-Ensures (Holds page.messages page.removed_message_ids) _ (
                  rw (store_cursor-messages page.cursor q) (
                    names-All (λ id. has message_key id q.messages ≡ true) page.messages
                        (λ id named. ids id ∙ ground (arith, named)),
                    All-imp _ (λ id. has message_key id q.messages ≡ false) page.removed_message_ids
                        (λ id h. ids id ∙ ground (arith, h.0, h.1))
                        (both (λ id. names page.messages id ≡ false) _ page.removed_message_ids
                          unnamed gone),
                  )))))

    empty_All {κ} : {A : Type 0} (P : A → Type κ) (xs : List A) → is_empty xs ≡ true → All P xs
    empty_All P [] h = tt
    empty_All P (x ∷ xs) h = absurd cc

    -- After `apply_mailbox_sync_page` has succeeded on a cache whose message ids are unique, every
    -- message of the page is cached, and no message that the page reports as removed is.
    pub apply_mailbox_sync_page-Holds :
        (page : MailboxSyncPage Json) (r r' : Repository Text) (n : ℕ)
        → IsKeyed message_key r.messages
        → apply_mailbox_sync_page serde now account_id mailbox_id page r ≡ ok (r', n)
        → Holds page.messages page.removed_message_ids r'
    unfolding apply_mailbox_sync_page is_no_op
    apply_mailbox_sync_page-Holds page r r' n keyed h =
        Ensures-elim (apply_mailbox_sync_page serde now account_id mailbox_id page r)
          (Ensures-guard (all (message_is_local account_id mailbox_id) page.messages) _ (λ _.
            Ensures-guard (all (removal_is_valid account_id page.messages) page.removed_message_ids)
              _
              (λ valid. Ensures-guard (not (sync_cursor_is_invalid page.cursor)) _ (λ _.
                Ensures-if (is_no_op page)
                  (λ nothing.
                    read_revision-Ensures (Holds page.messages page.removed_message_ids) r (
                      empty_All _ page.messages (ground (arith, nothing)),
                      empty_All _ page.removed_message_ids (ground (arith, nothing)),
                    ))
                  (λ _. apply_checked_page-Holds page r keyed (
                    not_named page.messages page.removed_message_ids (
                      all-All (removal_is_valid account_id page.messages) page.removed_message_ids
                        valid)))))))
          h
