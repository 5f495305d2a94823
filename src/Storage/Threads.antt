-- ===== src/Storage/Threads.antt =====
-- `get_thread` and `thread_metadata_backfill_ids` of crates/quickmaild/src/storage.rs.
pub mod Bounds
use Prim.Native.Char.{code}
use quick_mail.Prelude.{
  ℕ, ℤ, suc, ◌+◌, String, Bool, true, false, not, ◌&&◌, ◌||◌, Option, none, some, List, [], ◌∷◌,
  ◌==◌, string_eq, map, filter, length, take, any, ltb, ltb_ℤ, leb_ℤ, nat_beq, if◌then◌else◌,
}
use quick_mail.Models.{MessageSummary, ThreadConversation}
use quick_mail.Storage.Order.{order_by, text_ltb}
use quick_mail.Storage.Table.{find}
use quick_mail.Storage.Schema.{MessageRow, Repository, message_key}
use quick_mail.Storage.Scope.{option_eq}
use quick_mail.Storage.Actions.{is_blank}
use quick_mail.Storage.Messages.{collect_summaries, get_cached_message}
use quick_mail.Storage.SyncPage.{in_mailbox}
use quick_mail.Storage.Listing.{below, position, clamp_limit}
use quick_mail.Storage.Serde.{Serde}
use quick_mail.Storage.Result.{Result, ok, err, sqlite, not_found, ◌>>=◌, ◌>>◌}

abbrev pub max_thread_messages : ℕ
max_thread_messages = 100

-- `TRIM(text)=''`: SQLite's TRIM takes spaces away, and nothing else.
unfoldable pub is_spaces : String → Bool
is_spaces String.[] = true
is_spaces (String.◌∷◌ c s) = nat_beq (code c) 32 && is_spaces s

unfoldable pub trim_start : String → String
trim_start String.[] = String.[]
trim_start (String.◌∷◌ c s) =
    let rest = trim_start s in if nat_beq (code c) 32 then rest else String.◌∷◌ c s

unfoldable pub trim_end : String → String
unfolding is_spaces
trim_end String.[] = String.[]
trim_end (String.◌∷◌ c s) =
    let rest = trim_end s in if is_spaces (String.◌∷◌ c s) then String.[] else String.◌∷◌ c rest

-- SQLite's `TRIM(text)`.
unfoldable pub sql_trim : String → String
unfolding trim_start trim_end
sql_trim s = trim_end (trim_start s)

abbrev pub lacks_thread : Option String → Bool
lacks_thread none = true
lacks_thread (some thread_id) = is_spaces thread_id

module _ {Text : Type 0} where
  -- `ORDER BY updated_at ASC, id ASC`.
  unfoldable pub least_recent_first : MessageRow Text → MessageRow Text → Bool
  least_recent_first a b =
      if ltb_ℤ a.updated_at b.updated_at
      then true
      else leb_ℤ a.updated_at b.updated_at && text_ltb a.id b.id

  unfoldable pub thread_metadata_backfill_ids : String → String → ℕ → Repository Text → List String
  thread_metadata_backfill_ids account_id mailbox_id limit r = take (clamp_limit limit) (
      map (λ row. row.id)
        (order_by least_recent_first (
          filter (λ row. in_mailbox account_id mailbox_id row && lacks_thread row.thread_id)
            r.messages)))

  -- `ORDER BY CASE WHEN id=?3 THEN 0 ELSE 1 END, timestamp_ms DESC, id DESC`.
  unfoldable pub thread_before : String → MessageRow Text → MessageRow Text → Bool
  thread_before message_id a b =
      if a.id == message_id && not (b.id == message_id)
      then true
      else if not (a.id == message_id) && b.id == message_id
      then false
      else below (position b) (position a)

  -- A row that is the first of its copies: `copy_rank=1`, over rows with their copy's key.
  unfoldable pub is_first_copy :
      String → List (String × MessageRow Text) → String × MessageRow Text → Bool
  is_first_copy message_id rows (key, row) =
      not (any (λ q. q.0 == key && thread_before message_id q.1 row) rows)

  unfoldable pub in_thread : String → String → MessageRow Text → Bool
  in_thread account_id thread_id row =
      row.account_id == account_id && option_eq row.thread_id (some thread_id)

-- `messages.sort_by` of the answer: by time, then by id.
unfoldable pub chronological : {Json : Type 0} → MessageSummary Json → MessageSummary Json → Bool
chronological a b =
    if ltb_ℤ a.timestamp b.timestamp
    then true
    else leb_ℤ a.timestamp b.timestamp && text_ltb a.id b.id

module _ {Json Text : Type 0} (serde : Serde Json Text) where
  abbrev pub copy_of_text : Option String → String → String
  copy_of_text none id = id
  copy_of_text (some text) id = if sql_trim text == "" then id else sql_trim text

  -- `COALESCE(NULLIF(TRIM(CAST(json_extract(…) AS TEXT)), ''), id)`.
  unfoldable pub copy_key : MessageRow Text → Result String
  copy_key row = elim (serde.extract_message_id row.provider_data_json) [
    | none ↦ err sqlite
    | some text ↦ ok (copy_of_text text row.id)
  ]

  unfoldable pub with_copy_keys : List (MessageRow Text) → Result (List (String × MessageRow Text))
  with_copy_keys [] = ok []
  with_copy_keys (row ∷ rows) = do
    key ← copy_key row
    keyed ← with_copy_keys rows
    ok ((key, row) ∷ keyed)

  -- The statement of `get_thread`.
  unfoldable pub thread_rows :
      String → String → String → List (MessageRow Text) → Result (List (MessageRow Text))
  thread_rows account_id thread_id message_id rows = do
    keyed ← with_copy_keys (filter (in_thread account_id thread_id) rows)
    ok (
        take (max_thread_messages + 1) (
          order_by (thread_before message_id)
            (map (λ q. q.1) (filter (is_first_copy message_id keyed) keyed))))

  -- `.filter(|value| !value.trim().is_empty())`.
  abbrev pub thread_of : MessageSummary Json → Option String
  thread_of m = elim m.thread_id [
    | none ↦ none
    | some thread_id ↦ if is_blank thread_id then none else some thread_id
  ]

  unfoldable pub conversation : String → List (MessageSummary Json) → ThreadConversation Json
  unfolding chronological
  conversation thread_id found = record {
    id = thread_id;
    messages = order_by chronological (take max_thread_messages found);
    truncated = ltb max_thread_messages (length found);
  }

  unfoldable pub get_thread : String → Repository Text → Result (ThreadConversation Json)
  unfolding thread_rows conversation
  get_thread message_id r = get_cached_message serde message_id r >>= elim [
    | none ↦ err not_found
    | some (anchor, _) ↦ elim (thread_of anchor.summary) [
      | none ↦
          ok (record { id = anchor.summary.id; messages = anchor.summary ∷ []; truncated = false })
      | some thread_id ↦ do
        rows ← thread_rows anchor.summary.account_id thread_id message_id r.messages
        found ← collect_summaries serde rows
        ok (conversation thread_id found)
    ]
  ]
