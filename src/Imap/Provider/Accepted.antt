-- ===== src/Imap/Provider/Accepted.antt =====
-- The synchronisation of IMAP and the cache together: a page of the provider is never refused.
use quick_mail.Prelude.{
  ℕ, ℤ, ◌^◌, ◌<◌, String, Bool, true, false, not, ◌&&◌, Option, none, some, List, map, ◌++◌, ltb,
  all, All, ◌≡◌, refl, subst, arith, inl, inr, Bool-cases, Option-cases, nat_beq, ◌==◌, string_eq,
  if◌then◌else◌,
}
use quick_mail.Imap.Cursor.{SelectedMailbox, UidCursor, UidSyncPlan, uid_sync_plan}
use quick_mail.Imap.Cursor.Accepted.{sync_cursor_is_invalid-show_cursor}
use quick_mail.Imap.Error.{Reply, done, fail, ImapError, map_err, provider_error}
use quick_mail.Imap.Provider.{
  ImapEnvelope, ImapTransport, Libraries, provide, provided, clamp_limit, requested_ids, new_uids,
  sync_page, sync_selected, sync_mailbox, previous_cursor, is_some,
}
use quick_mail.Imap.Provider.Sync.{
  HasUid, Paired, reconciled-Paired, all-message_is_local, all-removal_is_valid,
}
use quick_mail.Imap.Search.{IncrementalUidPage, dedup}
use quick_mail.Imap.Session.{Step, pure, lift, bind-eq-done}
use quick_mail.Provider.{ProviderError, MailboxSyncQuery, MailboxSyncPage}
use quick_mail.Storage.Order.{order_by}
use quick_mail.Storage.SyncPage.{
  message_is_local, removal_is_valid, sync_cursor_is_invalid, is_no_op, apply_mailbox_sync_page,
  apply_checked_page,
}
use quick_mail.Storage.Schema.{Repository}
use quick_mail.Storage.Serde.{Serde}

-- What the types of a transport promise: numbers are u64, and a UID is positive (RFC 3501).
pub record FitsTypes {S : Type 0} (transport : ImapTransport S) : Type 0 where
  pub select_fits :
      (mailbox : String) (s t : S) (selected : SelectedMailbox)
      → transport.select mailbox s ≡ (done selected, t)
      → (selected.uid_validity < 2 ^ 64) × (selected.uid_next < 2 ^ 64)
  pub since_fits :
      (mailbox : String) (a b limit : ℕ) (s t : S) (page : IncrementalUidPage)
      → transport.search_uids_since mailbox a b limit s ≡ (done page, t)
      → page.high_uid < 2 ^ 64
  pub fetch_fits :
      (mailbox : String) (uids : List ℕ) (s t : S) (envelopes : List ImapEnvelope)
      → transport.fetch_envelopes mailbox uids s ≡ (done envelopes, t)
      → All HasUid envelopes

pub provided-eq-done :
    {S A : Type 0} (reply : Reply ImapError A × S) {a : A} {t : S}
    → provided reply ≡ (done a, t)
    → reply ≡ (done a, t)
provided-eq-done (done a, t) h = cc
provided-eq-done (fail e, t) h = cc

-- What the cache checks before it stores a page (see `apply_mailbox_sync_page`).
abbrev pub IsAccepted : {Json : Type 0} → String → String → MailboxSyncPage Json → Type 0
IsAccepted account_id mailbox_id page =
    (all (message_is_local account_id mailbox_id) page.messages ≡ true)
    × (all (removal_is_valid account_id page.messages) page.removed_message_ids ≡ true)
    × (sync_cursor_is_invalid page.cursor ≡ false)
    × (is_no_op page ≡ false)

same_number :
    {S : Type 0} {uids uids' : List ℕ} {m n : ℕ} {s t : S}
    → ◌≡◌ {A = Reply ImapError (List ℕ × ℕ) × S} (done (uids, m), s) (done (uids', n), t)
    → m ≡ n
same_number h = cc

-- A page that was returned at the end is the one that was made.
same_page :
    {S A : Type 0} (b : Bool) (error : ProviderError) (s : S) {made page : A} {t : S}
    → (if◌then◌else◌ {A = Step S ProviderError A} b (pure made) (lift (fail error))) s
      ≡ (done page, t)
    → made ≡ page
same_page true error s h = cc
same_page false error s h = cc

no_reply :
    {S A : Type 0} {error : ProviderError} {page : A} {s t : S}
    → ◌≡◌ {A = Reply ProviderError A × S} (fail error, s) (done page, t)
    → ⊥
no_reply h = cc

through_fits :
    (previous : Option UidCursor) (selected : SelectedMailbox)
    → selected.uid_next < 2 ^ 64
    → (uid_sync_plan previous selected).through_uid < 2 ^ 64
unfolding uid_sync_plan
through_fits none selected h = omega arith
through_fits (some cursor) selected h = omega arith

never_no_op :
    (reset messages removed : Bool) → (not reset && (messages && (removed && false))) ≡ false
never_no_op reset messages removed = ground arith

module _ {S Json : Type 0} (libraries : Libraries Json) (account_id : String)
    (transport : ImapTransport S) (fits : FitsTypes transport) where
  requested_ids-Paired :
      (query : MailboxSyncQuery) (selected : SelectedMailbox) (plan : UidSyncPlan)
      → All
          (Paired account_id query.mailbox_id selected.uid_validity)
          (requested_ids account_id query selected plan)
  requested_ids-Paired query selected plan = elim (Bool-cases (is_some plan.after_uid)) [
    | inl e ↦ rw (e) (
        reconciled-Paired account_id query.mailbox_id selected.uid_validity
          query.reconcile_message_ids)
    | inr e ↦ rw (e) tt
  ]

  sync_page-IsAccepted :
      (query : MailboxSyncQuery) (selected : SelectedMailbox) (plan : UidSyncPlan) (high_uid : ℕ)
      (envelopes : List ImapEnvelope)
      → selected.uid_validity < 2 ^ 64
      → high_uid < 2 ^ 64
      → All HasUid envelopes
      → IsAccepted account_id query.mailbox_id (
          sync_page libraries account_id query.mailbox_id selected plan high_uid
            (requested_ids account_id query selected plan)
            envelopes)
  unfolding sync_page is_no_op
  sync_page-IsAccepted query selected plan high_uid envelopes hv hu h = (
    all-message_is_local libraries account_id query.mailbox_id selected.uid_validity hv envelopes h,
    all-removal_is_valid libraries account_id query.mailbox_id selected.uid_validity hv
        (requested_ids account_id query selected plan) envelopes
        (requested_ids-Paired query selected plan) h,
    sync_cursor_is_invalid-show_cursor
        (record { uid_validity = selected.uid_validity; last_uid = high_uid }) hv hu,
    never_no_op plan.reset _ _,
  )

  high_uid_fits :
      (mailbox : String) (plan : UidSyncPlan) (limit : ℕ) (s t : S) (uids : List ℕ) (high_uid : ℕ)
      → plan.through_uid < 2 ^ 64
      → new_uids libraries account_id transport mailbox plan limit s ≡ (done (uids, high_uid), t)
      → high_uid < 2 ^ 64
  unfolding new_uids
  high_uid_fits mailbox plan limit s t uids high_uid small h = elim (Option-cases plan.after_uid) [
    | inl e ↦
        let (found, s', one, two) =
          bind-eq-done (transport.search_recent_uids mailbox plan.through_uid limit) _ s
            (rw (new_uids, e) at h) in
        subst (λ n. n < 2 ^ 64) (same_number two) small
    | inr (after_uid, e) ↦
        let (page, s', one, two) =
          bind-eq-done (transport.search_uids_since mailbox after_uid plan.through_uid limit) _ s
            (rw (new_uids, e) at h) in
        subst (λ n. n < 2 ^ 64) (same_number two)
          (fits.since_fits mailbox after_uid plan.through_uid limit s s' page one)
  ]

  sync_selected-IsAccepted :
      (query : MailboxSyncQuery) (selected : SelectedMailbox) (plan : UidSyncPlan) (s t : S)
      (page : MailboxSyncPage Json)
      → selected.uid_validity < 2 ^ 64
      → plan.through_uid < 2 ^ 64
      → sync_selected libraries account_id transport query selected plan s ≡ (done page, t)
      → IsAccepted account_id query.mailbox_id page
  unfolding sync_selected
  sync_selected-IsAccepted query selected plan s t page hv small h =
      let (uids, s1, one, h1) =
        bind-eq-done
          (provide (
            new_uids libraries account_id transport query.mailbox_id plan
              (clamp_limit query.limit)))
          _ s h in
      let requested = requested_ids account_id query selected plan in
      let fetch_uids = dedup (order_by ltb (uids.0 ++ map (λ (uid, id). uid) requested)) in
      let (envelopes, s2, two, h2) =
        bind-eq-done (provide (transport.fetch_envelopes query.mailbox_id fetch_uids)) _ s1 h1 in
      let (confirmed, s3, three, h3) =
        bind-eq-done (provide (transport.select query.mailbox_id)) _ s2 h2 in
      let small_uid =
        high_uid_fits query.mailbox_id plan (clamp_limit query.limit) s s1 uids.0 uids.1 small
          (provided-eq-done _ one) in
      let known =
        fits.fetch_fits query.mailbox_id fetch_uids s1 s2 envelopes (provided-eq-done _ two) in
      let accepted = sync_page-IsAccepted query selected plan uids.1 envelopes hv small_uid known in
      subst (IsAccepted account_id query.mailbox_id)
        (same_page (nat_beq confirmed.uid_validity selected.uid_validity) _ _ h3) accepted

  -- A page that the provider returns from `sync_mailbox`, a page after a change of the numbering
  -- included, passes every check of the cache: its messages are of the account and the mailbox, no
  -- removed id is among its messages, and its cursor is one that the cache stores.
  pub sync_mailbox-IsAccepted :
      (query : MailboxSyncQuery) (s t : S) (page : MailboxSyncPage Json)
      → sync_mailbox libraries account_id transport query s ≡ (done page, t)
      → IsAccepted account_id query.mailbox_id page
  unfolding sync_mailbox uid_sync_plan
  sync_mailbox-IsAccepted query s t page h = elim (Bool-cases (query.account_id == account_id)) [
    | inr other ↦ let h' = rw (sync_mailbox, other) at h in absurd (no_reply h')
    | inl same ↦
        let (selected, s1, one, h1) =
          bind-eq-done (provide (transport.select query.mailbox_id)) _ s
            (rw (sync_mailbox, same) at h) in
        let (previous, s2, two, h2) =
          bind-eq-done (lift (map_err provider_error (previous_cursor query.cursor))) _ s1 h1 in
        let (fits_validity, fits_next) =
          fits.select_fits query.mailbox_id s s1 selected (provided-eq-done _ one) in
        sync_selected-IsAccepted query selected (uid_sync_plan previous selected) s2 t page
          fits_validity (through_fits previous selected fits_next) h2
  ]

  -- The cache never refuses a page of IMAP for what the page says: a page that `sync_mailbox`
  -- returns passes every check that `apply_mailbox_sync_page` makes before its transaction, so that
  -- the call is the transaction.
  pub apply_mailbox_sync_page-sync_mailbox :
      {Text : Type 0} (serde : Serde Json Text) (now : ℤ) (r : Repository Text)
      (query : MailboxSyncQuery) (s t : S) (page : MailboxSyncPage Json)
      → sync_mailbox libraries account_id transport query s ≡ (done page, t)
      → apply_mailbox_sync_page serde now account_id query.mailbox_id page r
        ≡ apply_checked_page serde now account_id query.mailbox_id page r
  unfolding apply_mailbox_sync_page
  apply_mailbox_sync_page-sync_mailbox serde now r query s t page h =
      let (local, removed, cursor, stored) = sync_mailbox-IsAccepted query s t page h in
      rw (apply_mailbox_sync_page, local, removed, cursor, stored) refl
