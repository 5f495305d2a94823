-- ===== src/Tests/Synchronising.antt =====
-- A synchronisation of the IMAP provider with the cache, and a mail action.
use quick_mail.Prelude.{
  ℕ, List, String, true, pos, ◌^◌, ◌<◌, false, none, some, [], ◌∷◌, All, ◌≡◌, refl, subst, arith,
}
use quick_mail.Imap.Cursor.{SelectedMailbox, UidSyncPlan}
use quick_mail.Imap.Error.{Reply, done, ImapError}
use quick_mail.Imap.Provider.{ImapEnvelope, ImapTransport, Libraries, sync_mailbox, sync_page}
use quick_mail.Imap.Provider.Accepted.{FitsTypes, apply_mailbox_sync_page-sync_mailbox}
use quick_mail.Imap.Provider.Actions.{move_to, store_flag}
use quick_mail.Imap.Provider.Actions.Ids.{Checked, move_to-exact, store_flag-exact}
use quick_mail.Imap.Provider.Sync.{HasUid}
use quick_mail.Imap.Search.{IncrementalUidPage}
use quick_mail.Provider.{MailboxSyncQuery, MailboxSyncPage}
use quick_mail.Storage.SyncPage.{apply_mailbox_sync_page, apply_checked_page}
use quick_mail.Tests.Fixture.{Json, null, serde, stocked}

abbrev envelope : ImapEnvelope
envelope = record {
  uid = 9;
  subject = "Hello";
  author = none;
  timestamp = pos 1000;
  flags = "\\Seen" ∷ "work" ∷ [];
  snippet = "";
  has_attachments = false;
  message_id = some "<m@example.org>";
  in_reply_to = [];
  references = [];
}

abbrev selected : SelectedMailbox
selected = record { uid_validity = 7; uid_next = 10; highest_mod_sequence = none }

-- Message 9 is there, message 4 is not.
abbrev transport : ImapTransport (Unit {0})
transport = record {
  list_mailboxes = λ s. (done [], s);
  select = λ name s. (done selected, s);
  search_uids = λ name before wanted unread limit s. (done (9 ∷ []), s);
  search_recent_uids = λ name through limit s. (done (9 ∷ []), s);
  search_uids_since = λ name a b limit s. (done (record { uids = 9 ∷ []; high_uid = 9 }), s);
  fetch_envelopes = λ name uids s. (done (envelope ∷ []), s);
  store_flags = λ name uids add remove s. (done tt, s);
  move_uids = λ name uids destination s. (done tt, s);
}

reply_inj :
    {A : Type 0} {a b : A} {s t : Unit {0}}
    → ◌≡◌ {A = Reply ImapError A × Unit {0}} (done a, s) (done b, t)
    → a ≡ b
reply_inj h = cc

transport_fits : FitsTypes transport
transport_fits = record {
  select_fits = λ name s t found h.
      subst (λ (x : SelectedMailbox). (x.uid_validity < 2 ^ 64) × (x.uid_next < 2 ^ 64))
        (reply_inj h) (omega arith, omega arith);
  since_fits = λ name a b limit s t page h.
      subst (λ (p : IncrementalUidPage). p.high_uid < 2 ^ 64) (reply_inj h) (omega arith);
  fetch_fits = λ name uids s t envelopes h.
      subst (All HasUid) (reply_inj h) ((omega arith, omega arith), tt);
}

abbrev libraries : Libraries Json
libraries = record { uuid_v5 = λ name. "uuid"; envelope_json = λ e. null }

-- A cursor of the present numbering, and the cached messages 4 and 9 to look after.
abbrev query : MailboxSyncQuery
query = record {
  account_id = "a";
  mailbox_id = "INBOX";
  cursor = some "7:4";
  limit = 20;
  reconcile_message_ids = "a:imap:7:4:494e424f58" ∷ "a:imap:7:9:494e424f58" ∷ [];
}

abbrev plan : UidSyncPlan
plan = record { after_uid = some 4; through_uid = 9; reset = false }

abbrev synced : MailboxSyncPage Json
synced =
    sync_page libraries "a" "INBOX" selected plan 9
      ((4, "a:imap:7:4:494e424f58") ∷ (9, "a:imap:7:9:494e424f58") ∷ []) (envelope ∷ [])

-- The page says that message 4 is gone.
gone : synced.removed_message_ids ≡ "a:imap:7:4:494e424f58" ∷ []
unfolding sync_page quick_mail.Storage.Order.order_by quick_mail.Storage.Order.insert_row
gone = refl

synced_now : sync_mailbox libraries "a" transport query tt ≡ (done synced, tt)
unfolding sync_mailbox quick_mail.Codec.Decimal.scan quick_mail.Codec.Decimal.is_digit
    quick_mail.Codec.Utf8.from_utf8
synced_now = refl

apply_mailbox_sync_page-sync_mailbox_example :
    apply_mailbox_sync_page serde (pos 5) "a" "INBOX" synced stocked
    ≡ apply_checked_page serde (pos 5) "a" "INBOX" synced stocked
apply_mailbox_sync_page-sync_mailbox_example =
    apply_mailbox_sync_page-sync_mailbox libraries "a" transport transport_fits serde (pos 5)
      stocked query tt tt synced synced_now

abbrev both_ids : List String
both_ids = "a:imap:7:4:494e424f58" ∷ "a:imap:7:9:494e424f58" ∷ []

both_moved : move_to "a" transport both_ids "Trash" tt ≡ (done tt, tt)
unfolding move_to quick_mail.Codec.Decimal.scan quick_mail.Codec.Decimal.is_digit
    quick_mail.Codec.Utf8.from_utf8
both_moved = refl

move_to-exact_example :
    (mailbox : String) × (uids : List ℕ) × (there : Unit {0}) × Checked "a" transport both_ids tt
      mailbox uids there
    × (transport.move_uids mailbox uids "Trash" there ≡ (done tt, tt))
move_to-exact_example = move_to-exact "a" transport both_ids "Trash" tt tt both_moved

both_read : store_flag "a" transport both_ids "\\Seen" true tt ≡ (done tt, tt)
unfolding store_flag quick_mail.Codec.Decimal.scan quick_mail.Codec.Decimal.is_digit
    quick_mail.Codec.Utf8.from_utf8
both_read = refl

store_flag-exact_example :
    (mailbox : String) × (uids : List ℕ) × (there : Unit {0}) × Checked "a" transport both_ids tt
      mailbox uids there
    × (transport.store_flags mailbox uids ("\\Seen" ∷ []) [] there ≡ (done tt, tt))
store_flag-exact_example = store_flag-exact "a" transport both_ids "\\Seen" true tt tt both_read
