-- ===== src/Storage/Messages/RoundTrip.antt =====
-- Messages written by `upsert_messages` and `upsert_message_summaries` of
-- crates/quickmaild/src/storage.rs, and read by `get_cached_message`.
use quick_mail.Prelude.{
  ℕ, ℤ, Bool, true, false, ◌||◌, ◌≡◌, refl, ◌∙◌, ap, some_inj, Option, none, some, List, [], ◌∷◌,
  string_eq, beq_refl,
}
use quick_mail.Models.{Address, Attachment, Message, MessageSummary}
use quick_mail.Models.Ids.{is_normalized_message_id}
use quick_mail.Storage.Table.{find, has}
use quick_mail.Storage.Table.Laws.{find-upsert, find-key}
use quick_mail.Storage.Schema.{MessageRow, Repository, message_key, account_key}
use quick_mail.Storage.Serde.{Serde}
use quick_mail.Storage.Revision.{bump_revision-Ensures}
use quick_mail.Storage.Result.{
  ok, ◌>>=◌, ok_inj, Ensures-bind, Ensures-guard, Ensures-elim, returns, bind-eq-ok,
}
use quick_mail.Storage.Messages.{
  author_name, author_address, author_of, merge_message, message_to_row, upsert_each_message,
  upsert_messages_with_body_state, upsert_messages, summary_only, upsert_message_summaries,
  json_column, message_summary_from_row, cached_message_from_row, get_cached_message,
}

author-of : (a : Option Address) → author_of (author_name a) (author_address a) ≡ a
author-of none = refl
author-of (some a) = refl

or_true : (b : Bool) → (b || true) ≡ true
or_true true = refl
or_true false = refl

or_false : (b : Bool) → (b || false) ≡ b
or_false true = refl
or_false false = refl

module _ {Json Text : Type 0} (serde : Serde Json Text) where
  summary_from_columns :
      (now : ℤ) (loaded : Bool) (m : Message Json) (row : MessageRow Text)
      → serde.valid_millis m.summary.timestamp ≡ true
      → message_summary_from_row serde (message_to_row serde now loaded m) ≡ ok m.summary
  unfolding message_summary_from_row message_to_row
  summary_from_columns now loaded m row valid = rw (
    valid,
    serde.labels.round_trip m.summary.labels,
    serde.value.round_trip m.summary.provider_data,
    author-of m.summary.author,
  )

  -- The row of a loaded message is read back as the message, whatever row it replaces.
  read_loaded :
      (now : ℤ) (m : Message Json)
      → serde.valid_millis m.summary.timestamp ≡ true
      → cached_message_from_row serde (message_to_row serde now true m) ≡ ok (m, true)
  unfolding cached_message_from_row message_summary_from_row message_to_row
  read_loaded now m valid = rw (
    valid,
    serde.labels.round_trip m.summary.labels,
    serde.value.round_trip m.summary.provider_data,
    author-of m.summary.author,
    serde.addresses.round_trip m.to,
    serde.addresses.round_trip m.cc_list,
    serde.addresses.round_trip m.bcc,
    serde.attachments.round_trip m.attachments,
  )

  merge_loaded :
      (now : ℤ) (m : Message Json) (old : MessageRow Text)
      → old.id ≡ m.summary.id
      → merge_message old (message_to_row serde now true m) ≡ message_to_row serde now true m
  unfolding merge_message message_to_row
  merge_loaded now m old same = rw (same, or_true old.body_loaded)

  -- What `upsert_each_message` with one message leaves in the table.
  find_stored :
      (now : ℤ) (loaded : Bool) (m : Message Json) (r r' : Repository Text) (n : ℕ)
      → upsert_messages_with_body_state serde now (m ∷ []) loaded r ≡ ok (r', n)
      → find message_key m.summary.id r'.messages
        ≡ some (elim (find message_key m.summary.id r.messages) [
          | none ↦ message_to_row serde now loaded m
          | some old ↦ merge_message old (message_to_row serde now loaded m)
        ])
  unfolding upsert_messages_with_body_state upsert_each_message merge_message message_to_row
  find_stored now loaded m r r' n h =
      let Stored : Repository Text → Type 0 = λ q.
        find message_key m.summary.id q.messages
        ≡ some (elim (find message_key m.summary.id r.messages) [
          | none ↦ message_to_row serde now loaded m
          | some old ↦ merge_message old (message_to_row serde now loaded m)
        ]) in
      Ensures-elim (upsert_messages_with_body_state serde now (m ∷ []) loaded r)
        (Ensures-bind {Q = Stored}
          (Ensures-guard (is_normalized_message_id m.summary.account_id m.summary.id) _ (λ _.
            Ensures-guard (has account_key m.summary.account_id r.accounts) _ (λ _. returns _ (
              rw (beq_refl m.summary.id) at (
                find-upsert message_key merge_message (λ old new. refl) m.summary.id
                  (message_to_row serde now loaded m) r.messages)))))
          (λ q stored. bump_revision-Ensures Stored q stored))
        h

  -- After `upsert_messages` has stored a message whose time chrono can represent,
  -- `get_cached_message` returns exactly that message, with its body, whatever the cache held
  -- under its id before.
  pub get_cached_message-upsert_messages :
      (now : ℤ) (m : Message Json) (r r' : Repository Text) (n : ℕ)
      → serde.valid_millis m.summary.timestamp ≡ true
      → upsert_messages serde now (m ∷ []) r ≡ ok (r', n)
      → get_cached_message serde m.summary.id r' ≡ ok (some (m, true))
  unfolding get_cached_message upsert_messages
  get_cached_message-upsert_messages now m r r' n valid h =
      let stored = find_stored now true m r r' n h in
      go (find message_key m.summary.id r.messages) refl stored
    where
      go :
          (found : Option (MessageRow Text))
          → find message_key m.summary.id r.messages ≡ found
          → find message_key m.summary.id r'.messages
            ≡ some (elim found [
              | none ↦ message_to_row serde now true m
              | some old ↦ merge_message old (message_to_row serde now true m)
            ])
          → get_cached_message serde m.summary.id r' ≡ ok (some (m, true))
      go none before after = rw (get_cached_message, after, read_loaded now m valid)
      go (some old) before after = rw (
        get_cached_message,
        after,
        merge_loaded now m old (find-key message_key m.summary.id r.messages before),
        read_loaded now m valid,
      )

  merged_columns :
      (now : ℤ) (s : MessageSummary Json) (old : MessageRow Text) (to cc_list bcc : List Address)
      (files : List Attachment)
      → serde.valid_millis s.timestamp ≡ true
      → old.id ≡ s.id
      → json_column serde (serde.addresses.from_str old.to_json) ≡ ok to
      → json_column serde (serde.addresses.from_str old.cc_json) ≡ ok cc_list
      → json_column serde (serde.addresses.from_str old.bcc_json) ≡ ok bcc
      → json_column serde (serde.attachments.from_str old.attachments_json) ≡ ok files
      → cached_message_from_row serde
          (merge_message old (message_to_row serde now false (summary_only serde s)))
        ≡ ok (
          record {
            summary = s;
            to = to;
            cc_list = cc_list;
            bcc = bcc;
            body_text = old.body_text;
            body_html = old.body_html;
            attachments = files;
          },
          old.body_loaded,
        )
  unfolding cached_message_from_row merge_message message_to_row message_summary_from_row
  merged_columns now s old to cc_list bcc files valid same to_read cc_read bcc_read files_read =
      rw (
        same,
        valid,
        serde.labels.round_trip s.labels,
        serde.value.round_trip s.provider_data,
        author-of s.author,
        to_read,
        cc_read,
        bcc_read,
        files_read,
        or_false old.body_loaded,
      )

  -- A summary replaces the summary of a row, and leaves what the row holds of the body.
  read_merged :
      (now : ℤ) (s : MessageSummary Json) (old : MessageRow Text) (m : Message Json) (loaded : Bool)
      → serde.valid_millis s.timestamp ≡ true
      → old.id ≡ s.id
      → cached_message_from_row serde old ≡ ok (m, loaded)
      → cached_message_from_row serde
          (merge_message old (message_to_row serde now false (summary_only serde s)))
        ≡ ok (record m { summary = s }, loaded)
  unfolding cached_message_from_row
  read_merged now s old m loaded valid same h =
      let (summary, _, h1) = bind-eq-ok (message_summary_from_row serde old) _ h in
      let (to, to_read, h2) =
        bind-eq-ok (json_column serde (serde.addresses.from_str old.to_json)) _ h1 in
      let (cc_list, cc_read, h3) =
        bind-eq-ok (json_column serde (serde.addresses.from_str old.cc_json)) _ h2 in
      let (bcc, bcc_read, h4) =
        bind-eq-ok (json_column serde (serde.addresses.from_str old.bcc_json)) _ h3 in
      let (files, files_read, h5) =
        bind-eq-ok (json_column serde (serde.attachments.from_str old.attachments_json)) _ h4 in
      merged_columns now s old to cc_list bcc files valid same to_read cc_read bcc_read files_read
      ∙ ap (λ c. ok (record c.0 { summary = s }, c.1)) (ok_inj h5)

  -- A message whose body the cache holds keeps recipients, body and attachments when a
  -- synchronisation stores a newer summary of it: `get_cached_message` then returns the message
  -- with the new summary, and marks the body loaded or not as it did before.
  pub get_cached_message-upsert_message_summaries :
      (now : ℤ) (s : MessageSummary Json) (m : Message Json) (loaded : Bool)
      (r r' : Repository Text) (n : ℕ)
      → serde.valid_millis s.timestamp ≡ true
      → get_cached_message serde s.id r ≡ ok (some (m, loaded))
      → upsert_message_summaries serde now (s ∷ []) r ≡ ok (r', n)
      → get_cached_message serde s.id r' ≡ ok (some (record m { summary = s }, loaded))
  unfolding get_cached_message upsert_message_summaries
  get_cached_message-upsert_message_summaries now s m loaded r r' n valid cached h =
      go (find message_key s.id r.messages) refl cached
        (find_stored now false (summary_only serde s) r r' n h)
    where
      go :
          (found : Option (MessageRow Text))
          → find message_key s.id r.messages ≡ found
          → elim found [
            | none ↦ ok none
            | some row ↦ cached_message_from_row serde row >>= λ c. ok (some c)
          ]
            ≡ ok (some (m, loaded))
          → find message_key s.id r'.messages
            ≡ some (elim found [
              | none ↦ message_to_row serde now false (summary_only serde s)
              | some old ↦ merge_message old (message_to_row serde now false (summary_only serde s))
            ])
          → get_cached_message serde s.id r' ≡ ok (some (record m { summary = s }, loaded))
      go none before read after = absurd cc
      go (some old) before read after =
          let (c, c_read, same) = bind-eq-ok (cached_message_from_row serde old) _ read in
          rw (
            get_cached_message,
            after,
            read_merged now s old m loaded valid (find-key message_key s.id r.messages before)
                (c_read ∙ ap ok (some_inj (ok_inj same))),
          )
