-- ===== src/Tests/Mail.antt =====
-- The theorems on mail at concrete data.
use quick_mail.Prelude.{
  ℕ, ◌≤◌, pos, true, false, not, ◌||◌, ◌≡◌, refl, none, some, [], ◌∷◌, All, arith, string_eq,
}
use quick_mail.Models.{MessageSummary, ThreadConversation}
use quick_mail.Provider.{MessageQuery, mark_read}
use quick_mail.Storage.Table.{find, has, IsKeyed}
use quick_mail.Storage.Schema.{Repository, message_key}
use quick_mail.Storage.Order.Sorting.{IsOrdered}
use quick_mail.Storage.Result.{ok, err, Result}
use quick_mail.Storage.Messages.{get_cached_message, upsert_messages, upsert_message_summaries}
use quick_mail.Storage.Messages.RoundTrip.{
  get_cached_message-upsert_messages, get_cached_message-upsert_message_summaries,
}
use quick_mail.Storage.Mailboxes.{
  mailbox_sync_cursor, mailbox_from_row, mailbox_to_row, mailbox_from_row-mailbox_to_row,
}
use quick_mail.Models.{Mailbox, sent}
use quick_mail.Storage.SyncPage.{apply_mailbox_sync_page, in_mailbox}
use quick_mail.Storage.SyncPage.Contents.{Holds, names, apply_mailbox_sync_page-Holds}
use quick_mail.Storage.SyncPage.Resets.{
  mailbox_sync_cursor-apply_mailbox_sync_page, apply_mailbox_sync_page-reset,
}
use quick_mail.Storage.Operations.{done, finish_mail_action}
use quick_mail.Storage.Operations.Outcomes.{find-finish_mail_action}
use quick_mail.Storage.Drafts.{DraftSaved, save_draft, get_draft}
use quick_mail.Storage.Drafts.RoundTrip.{get_draft-save_draft}
use quick_mail.Storage.Threads.{get_thread, chronological}
use quick_mail.Storage.Threads.Bounds.{get_thread-IsConversation}
use quick_mail.Storage.Listing.Paging.{walk}
use quick_mail.Storage.Listing.Walks.{walk_complete}
use quick_mail.Tests.Fixture.{
  Json, Doc, serde, message, message_row, summary, stocked, page, after_call, number_of, letter,
}
use quick_mail.Tests.Integrity.{stocked-IsSound}

get_cached_message-upsert_messages_example :
    get_cached_message serde "a:2"
      (after_call (upsert_messages serde (pos 9) (message "a:2" 5 ∷ []) stocked))
    ≡ ok (some (message "a:2" 5, true))
unfolding upsert_messages quick_mail.Storage.Messages.upsert_messages_with_body_state
    quick_mail.Storage.Messages.upsert_each_message quick_mail.Models.Ids.is_normalized_message_id
    has quick_mail.Storage.Revision.bump_revision
get_cached_message-upsert_messages_example =
    get_cached_message-upsert_messages serde (pos 9) (message "a:2" 5) stocked
      (after_call (upsert_messages serde (pos 9) (message "a:2" 5 ∷ []) stocked))
      (number_of (upsert_messages serde (pos 9) (message "a:2" 5 ∷ []) stocked)) refl refl

get_cached_message-upsert_message_summaries_example :
    get_cached_message serde "a:2"
      (after_call (upsert_message_summaries serde (pos 9) (summary "a:2" 6 ∷ []) stocked))
    ≡ ok (some (message "a:2" 6, true))
unfolding get_cached_message find quick_mail.Storage.Messages.cached_message_from_row
    upsert_message_summaries quick_mail.Storage.Messages.upsert_messages_with_body_state
    quick_mail.Storage.Messages.upsert_each_message quick_mail.Models.Ids.is_normalized_message_id
    has quick_mail.Storage.Revision.bump_revision
get_cached_message-upsert_message_summaries_example =
    get_cached_message-upsert_message_summaries serde (pos 9) (summary "a:2" 6) (message "a:2" 2)
      true stocked
      (after_call (upsert_message_summaries serde (pos 9) (summary "a:2" 6 ∷ []) stocked))
      (number_of (upsert_message_summaries serde (pos 9) (summary "a:2" 6 ∷ []) stocked)) refl refl
      refl

-- A mailbox with a role.
mailbox_from_row-mailbox_to_row_example :
    mailbox_from_row (
      mailbox_to_row (record {
        id = "sent";
        account_id = "a";
        name = "Sent";
        role = some sent;
        unread = 0;
        total = 3;
      }))
    ≡ record {
      id = "sent";
      account_id = "a";
      name = "Sent";
      role = some sent;
      unread = 0;
      total = 3;
    }
mailbox_from_row-mailbox_to_row_example = mailbox_from_row-mailbox_to_row (record {
  id = "sent";
  account_id = "a";
  name = "Sent";
  role = some sent;
  unread = 0;
  total = 3;
})

apply_mailbox_sync_page-Holds_example :
    Holds
      (summary "a:3" 3 ∷ [])
      ("a:1" ∷ [])
      (after_call (apply_mailbox_sync_page serde (pos 9) "a" "inbox" (page false) stocked))
unfolding IsKeyed has apply_mailbox_sync_page quick_mail.Storage.SyncPage.message_is_local
    quick_mail.Models.Ids.is_normalized_message_id quick_mail.Storage.SyncPage.removal_is_valid
    quick_mail.Storage.SyncPage.sync_cursor_is_invalid quick_mail.Storage.SyncPage.is_no_op
    quick_mail.Storage.SyncPage.apply_checked_page quick_mail.Storage.SyncPage.removal_is_local find
    quick_mail.Storage.SyncPage.upsert_each_summary quick_mail.Storage.SyncPage.reset_mailbox
    quick_mail.Storage.Revision.bump_revision quick_mail.Storage.SyncPage.store_cursor
apply_mailbox_sync_page-Holds_example =
    apply_mailbox_sync_page-Holds serde (pos 9) "a" "inbox" (page false) stocked
      (after_call (apply_mailbox_sync_page serde (pos 9) "a" "inbox" (page false) stocked))
      (number_of (apply_mailbox_sync_page serde (pos 9) "a" "inbox" (page false) stocked))
      (refl, (refl, tt)) refl

mailbox_sync_cursor-apply_mailbox_sync_page_example :
    mailbox_sync_cursor "a" "inbox"
      (after_call (apply_mailbox_sync_page serde (pos 9) "a" "inbox" (page false) stocked))
    ≡ some "new"
unfolding apply_mailbox_sync_page quick_mail.Storage.SyncPage.message_is_local
    quick_mail.Models.Ids.is_normalized_message_id quick_mail.Storage.SyncPage.removal_is_valid
    quick_mail.Storage.SyncPage.sync_cursor_is_invalid quick_mail.Storage.SyncPage.is_no_op
    quick_mail.Storage.SyncPage.apply_checked_page has quick_mail.Storage.SyncPage.removal_is_local
    find quick_mail.Storage.SyncPage.upsert_each_summary quick_mail.Storage.SyncPage.reset_mailbox
    quick_mail.Storage.Revision.bump_revision quick_mail.Storage.SyncPage.store_cursor
mailbox_sync_cursor-apply_mailbox_sync_page_example =
    mailbox_sync_cursor-apply_mailbox_sync_page serde (pos 9) "a" "inbox" (page false) "new" stocked
      (after_call (apply_mailbox_sync_page serde (pos 9) "a" "inbox" (page false) stocked))
      (number_of (apply_mailbox_sync_page serde (pos 9) "a" "inbox" (page false) stocked)) refl refl

apply_mailbox_sync_page-reset_example :
    All
      (λ row. (not (in_mailbox "a" "inbox" row) || names (summary "a:3" 3 ∷ []) row.id) ≡ true)
      (after_call (apply_mailbox_sync_page serde (pos 9) "a" "inbox" (page true) stocked)).messages
unfolding apply_mailbox_sync_page quick_mail.Storage.SyncPage.message_is_local
    quick_mail.Models.Ids.is_normalized_message_id quick_mail.Storage.SyncPage.removal_is_valid
    quick_mail.Storage.SyncPage.sync_cursor_is_invalid quick_mail.Storage.SyncPage.is_no_op
    quick_mail.Storage.SyncPage.apply_checked_page has quick_mail.Storage.SyncPage.removal_is_local
    find quick_mail.Storage.SyncPage.upsert_each_summary quick_mail.Storage.SyncPage.reset_mailbox
    quick_mail.Storage.Revision.bump_revision quick_mail.Storage.SyncPage.store_cursor
apply_mailbox_sync_page-reset_example =
    apply_mailbox_sync_page-reset serde (pos 9) "a" "inbox" (page true) stocked
      (after_call (apply_mailbox_sync_page serde (pos 9) "a" "inbox" (page true) stocked))
      (number_of (apply_mailbox_sync_page serde (pos 9) "a" "inbox" (page true) stocked)) refl refl

find-finish_mail_action_example :
    find message_key "a:1"
      (after_call
        (finish_mail_action serde (pos 9) "o2" (mark_read ("a:1" ∷ []) true) done stocked)).messages
    ≡ some (record (message_row "a:1" 1) { is_read = true })
unfolding IsKeyed has finish_mail_action quick_mail.Storage.Operations.finish_operation
    quick_mail.Storage.Actions.apply_action_locally quick_mail.Storage.Revision.bump_revision
    quick_mail.Storage.Scope.contains find
find-finish_mail_action_example =
    find-finish_mail_action serde (pos 9) "o2" (mark_read ("a:1" ∷ []) true) done stocked
      (after_call
        (finish_mail_action serde (pos 9) "o2" (mark_read ("a:1" ∷ []) true) done stocked))
      (number_of (finish_mail_action serde (pos 9) "o2" (mark_read ("a:1" ∷ []) true) done stocked))
      "a:1" (refl, (refl, tt)) refl

abbrev after_save : Result (Repository Doc × DraftSaved × ℕ) → Repository Doc
after_save (ok p) = p.0
after_save (err e) = stocked

get_draft-save_draft_example :
    get_draft serde "d1" (after_save (save_draft serde (pos 9) "new" (some "d1") letter stocked))
    ≡ ok (record { draft_id = "d1"; message = letter; updated_at = pos 9 })
unfolding save_draft has quick_mail.Storage.Revision.bump_revision
get_draft-save_draft_example =
    get_draft-save_draft serde (pos 9) "new" (some "d1") letter stocked
      (after_save (save_draft serde (pos 9) "new" (some "d1") letter stocked))
      (record { draft_id = "d1"; updated_at = pos 9 }) 8 refl refl

abbrev thread : ThreadConversation Json
thread = record { id = "t"; messages = summary "a:1" 1 ∷ summary "a:2" 2 ∷ []; truncated = false }

get_thread-IsConversation_example :
    (2 ≤ 100) × IsOrdered chronological (summary "a:1" 1 ∷ summary "a:2" 2 ∷ [])
unfolding get_thread get_cached_message find quick_mail.Storage.Messages.cached_message_from_row
    quick_mail.Storage.Actions.is_blank quick_mail.Storage.Threads.with_copy_keys
    quick_mail.Storage.Threads.in_thread quick_mail.Storage.Threads.copy_key
    quick_mail.Storage.Messages.collect_summaries quick_mail.Storage.Order.order_by
    quick_mail.Storage.Threads.is_first_copy quick_mail.Storage.Threads.thread_before
    quick_mail.Storage.Listing.below quick_mail.Storage.Order.text_ltb
    quick_mail.Storage.Order.codes_ltb quick_mail.Storage.Order.insert_row
get_thread-IsConversation_example = get_thread-IsConversation serde "a:2" stocked thread refl

-- Pages of one message each.
abbrev query : MessageQuery
query = record {
  account_id = some "a";
  mailbox_id = some "inbox";
  search = none;
  unread_only = true;
  cursor = none;
  limit = 1;
}

walk_complete_example : walk serde 3 query stocked ≡ ok (summary "a:2" 2 ∷ summary "a:1" 1 ∷ [])
unfolding quick_mail.Storage.Listing.run_search quick_mail.Storage.Messages.collect_summaries
    quick_mail.Storage.Order.order_by quick_mail.Storage.Listing.is_wanted
    quick_mail.Storage.Order.insert_row quick_mail.Storage.Listing.newest_first
    quick_mail.Storage.Messages.message_summary_from_row
walk_complete_example =
    walk_complete serde stocked query none (summary "a:2" 2 ∷ summary "a:1" 1 ∷ []) 3
      stocked-IsSound refl refl (omega arith)
