-- ===== src/Storage/Messages.antt =====
-- Messages of crates/quickmaild/src/storage.rs: how a row is written and read.
pub mod RoundTrip
use Prim.Native.String.{◌++◌}
use quick_mail.Prelude.{
  ℕ, ℤ, String, Bool, true, false, not, ◌&&◌, ◌||◌, Option, none, some, List, [], ◌∷◌, map, ◌==◌,
  string_eq, filter, if◌then◌else◌,
}
use quick_mail.Models.{Address, MessageSummary, Message}
use quick_mail.Models.Ids.{is_normalized_message_id}
use quick_mail.Storage.Table.{find, upsert, delete, has}
use quick_mail.Storage.Schema.{MessageRow, Repository, message_key, account_key}
use quick_mail.Storage.Serde.{Serde}
use quick_mail.Storage.Revision.{read_revision, bump_revision}
use quick_mail.Storage.Result.{Result, ok, err, sqlite, invalid_data, not_found, ◌>>=◌, ◌>>◌, guard}

abbrev pub author_name : Option Address → Option String
author_name none = none
author_name (some a) = some a.name

abbrev pub author_address : Option Address → Option String
author_address none = none
author_address (some a) = some a.address

-- The author of a row: nobody without an address, and no name is an empty one.
abbrev pub author_of : Option String → Option String → Option Address
author_of name none = none
author_of none (some address) = some (record { name = ""; address = address })
author_of (some name) (some address) = some (record { name = name; address = address })

module _ {Text : Type 0} where
  -- `ON CONFLICT(id) DO UPDATE` of `upsert_messages_with_body_state`: the summary is replaced, and
  -- the body only by a loaded one.
  unfoldable pub merge_message : MessageRow Text → MessageRow Text → MessageRow Text
  merge_message old new = record new {
    id = old.id;
    to_json = if new.body_loaded then new.to_json else old.to_json;
    cc_json = if new.body_loaded then new.cc_json else old.cc_json;
    bcc_json = if new.body_loaded then new.bcc_json else old.bcc_json;
    body_text = if new.body_loaded then new.body_text else old.body_text;
    body_html = if new.body_loaded then new.body_html else old.body_html;
    attachments_json = if new.body_loaded then new.attachments_json else old.attachments_json;
    body_loaded = old.body_loaded || new.body_loaded;
  }

  -- `ON CONFLICT(id) DO UPDATE` of `apply_mailbox_sync_page`: the columns of the body stay.
  unfoldable pub merge_summary : MessageRow Text → MessageRow Text → MessageRow Text
  merge_summary old new = record new {
    id = old.id;
    to_json = old.to_json;
    cc_json = old.cc_json;
    bcc_json = old.bcc_json;
    body_text = old.body_text;
    body_html = old.body_html;
    attachments_json = old.attachments_json;
    body_loaded = old.body_loaded;
  }

module _ {Json Text : Type 0} (serde : Serde Json Text) where
  unfoldable pub message_to_row : ℤ → Bool → Message Json → MessageRow Text
  message_to_row now body_loaded m = record {
    id = m.summary.id;
    account_id = m.summary.account_id;
    mailbox_id = m.summary.mailbox_id;
    thread_id = m.summary.thread_id;
    subject = m.summary.subject;
    author_name = author_name m.summary.author;
    author_address = author_address m.summary.author;
    timestamp_ms = m.summary.timestamp;
    is_read = m.summary.is_read;
    starred = m.summary.starred;
    snippet = m.summary.snippet;
    has_attachments = m.summary.has_attachments;
    labels_json = serde.labels.to_string m.summary.labels;
    provider_data_json = serde.value.to_string m.summary.provider_data;
    to_json = serde.addresses.to_string m.to;
    cc_json = serde.addresses.to_string m.cc_list;
    bcc_json = serde.addresses.to_string m.bcc;
    body_text = m.body_text;
    body_html = m.body_html;
    attachments_json = serde.attachments.to_string m.attachments;
    body_loaded = body_loaded;
    updated_at = now;
  }

  -- The loop of `upsert_messages_with_body_state`.
  unfoldable pub upsert_each_message :
      ℤ → Bool → List (Message Json) → Repository Text → Result (Repository Text)
  upsert_each_message now body_loaded [] r = ok r
  upsert_each_message now body_loaded (m ∷ messages) r = do
    guard (is_normalized_message_id m.summary.account_id m.summary.id) (
        invalid_data (
          "message id "
          ++ (m.summary.id ++ (" is not namespaced by account " ++ m.summary.account_id))))
    guard (has account_key m.summary.account_id r.accounts) sqlite
    upsert_each_message now body_loaded messages (record r {
      messages = upsert message_key merge_message (message_to_row now body_loaded m) r.messages;
    })

  unfoldable pub upsert_messages_with_body_state :
      ℤ → List (Message Json) → Bool → Repository Text → Result (Repository Text × ℕ)
  upsert_messages_with_body_state now [] body_loaded r = read_revision r >>= λ n. ok (r, n)
  upsert_messages_with_body_state now (m ∷ messages) body_loaded r =
      upsert_each_message now body_loaded (m ∷ messages) r >>= bump_revision

  unfoldable pub upsert_messages :
      ℤ → List (Message Json) → Repository Text → Result (Repository Text × ℕ)
  upsert_messages now messages r = upsert_messages_with_body_state now messages true r

  abbrev pub summary_only : MessageSummary Json → Message Json
  summary_only s = record {
    summary = s;
    to = [];
    cc_list = [];
    bcc = [];
    body_text = none;
    body_html = none;
    attachments = [];
  }

  unfoldable pub upsert_message_summaries :
      ℤ → List (MessageSummary Json) → Repository Text → Result (Repository Text × ℕ)
  upsert_message_summaries now summaries r =
      upsert_messages_with_body_state now (map summary_only summaries) false r

  -- A column of JSON that does not parse is an error of the row.
  abbrev pub json_column {ℓ} : {A : Type ℓ} → Option A → Result A
  json_column none = err sqlite
  json_column (some a) = ok a

  unfoldable pub message_summary_from_row : MessageRow Text → Result (MessageSummary Json)
  message_summary_from_row row = do
    guard (serde.valid_millis row.timestamp_ms) sqlite
    labels ← json_column (serde.labels.from_str row.labels_json)
    provider_data ← json_column (serde.value.from_str row.provider_data_json)
    ok (record {
      id = row.id;
      account_id = row.account_id;
      mailbox_id = row.mailbox_id;
      thread_id = row.thread_id;
      subject = row.subject;
      author = author_of row.author_name row.author_address;
      timestamp = row.timestamp_ms;
      is_read = row.is_read;
      starred = row.starred;
      snippet = row.snippet;
      has_attachments = row.has_attachments;
      labels = labels;
      provider_data = provider_data;
    })

  unfoldable pub cached_message_from_row : MessageRow Text → Result (Message Json × Bool)
  unfolding message_summary_from_row
  cached_message_from_row row = do
    summary ← message_summary_from_row row
    to ← json_column (serde.addresses.from_str row.to_json)
    cc_list ← json_column (serde.addresses.from_str row.cc_json)
    bcc ← json_column (serde.addresses.from_str row.bcc_json)
    attachments ← json_column (serde.attachments.from_str row.attachments_json)
    ok (
      record {
        summary = summary;
        to = to;
        cc_list = cc_list;
        bcc = bcc;
        body_text = row.body_text;
        body_html = row.body_html;
        attachments = attachments;
      },
      row.body_loaded,
    )

  unfoldable pub get_cached_message :
      String → Repository Text → Result (Option (Message Json × Bool))
  get_cached_message id r = elim (find message_key id r.messages) [
    | none ↦ ok none
    | some row ↦ cached_message_from_row row >>= λ m. ok (some m)
  ]

  unfoldable pub collect_summaries : List (MessageRow Text) → Result (List (MessageSummary Json))
  collect_summaries [] = ok []
  collect_summaries (row ∷ rows) = do
    summary ← message_summary_from_row row
    summaries ← collect_summaries rows
    ok (summary ∷ summaries)
