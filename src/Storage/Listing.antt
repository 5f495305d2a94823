-- ===== src/Storage/Listing.antt =====
-- `list_messages` of crates/quickmaild/src/storage.rs: pages of the cache, newest first, and the
-- dashboard.
pub mod Positions
pub mod Pages
pub mod Paging
pub mod Walks
use Prim.Native.String.{◌++◌}
use quick_mail.Prelude.{
  ℕ, ℤ, suc, ◌+◌, ◌+ℤ◌, negsuc, pos, String, Bool, true, false, not, ◌&&◌, ◌||◌, Option, none, some,
  List, [], ◌∷◌, ◌==◌, string_eq, filter, length, take, ltb, ltb_ℤ, leb_ℤ, if◌then◌else◌,
}
use quick_mail.Models.{MessageSummary, DashboardSnapshot}
use quick_mail.Provider.{MessageQuery, MessagePage}
use quick_mail.Storage.Order.{order_by, text_ltb}
use quick_mail.Storage.Schema.{MessageRow, Repository}
use quick_mail.Storage.Scope.{option_eq}
use quick_mail.Storage.Actions.{is_blank}
use quick_mail.Storage.Messages.{collect_summaries}
use quick_mail.Storage.Accounts.{list_accounts}
use quick_mail.Storage.Agenda.{list_tasks, list_events}
use quick_mail.Storage.Serde.{Serde}
use quick_mail.Storage.Revision.{read_revision}
use quick_mail.Storage.Result.{Result, ok, err, sqlite, invalid_cursor, ◌>>=◌, ◌>>◌, guard}

-- A message's place in the order of pages.
abbrev pub Position : Type 0
Position = ℤ × String

-- The place of `p` stands below the place of `q` in `ORDER BY timestamp_ms DESC, id DESC`:
-- `(p.timestamp_ms, p.id) < (q.timestamp_ms, q.id)`.
unfoldable pub below : Position → Position → Bool
below p q = if ltb_ℤ p.0 q.0 then true else leb_ℤ p.0 q.0 && text_ltb p.1 q.1

-- `query.limit.clamp(1, MAX_PAGE_SIZE)`.
unfoldable pub clamp_limit : ℕ → ℕ
clamp_limit limit = if ltb limit 1 then 1 else if ltb 200 limit then 200 else limit

abbrev pub unless_blank : Option String → Option String
unless_blank none = none
unless_blank (some search) = if is_blank search then none else some search

abbrev pub text_or_empty : Option String → String
text_or_empty none = ""
text_or_empty (some text) = text

-- A column against an optional filter.
abbrev pub wants : Option String → Option String → Bool
wants none value = true
wants (some wanted) value = option_eq value (some wanted)

module _ {Text : Type 0} where
  abbrev pub position : MessageRow Text → Position
  position row = (row.timestamp_ms, row.id)

  unfoldable pub newest_first : MessageRow Text → MessageRow Text → Bool
  unfolding below
  newest_first a b = below (position b) (position a)

  abbrev pub is_past : Option Position → MessageRow Text → Bool
  is_past none row = true
  is_past (some cursor) row = below (position row) cursor

  abbrev pub found_by : Option (String → String → String → String → Bool) → MessageRow Text → Bool
  found_by none row = true
  found_by (some search) row =
      search row.subject
        (text_or_empty row.author_name ++ (" " ++ text_or_empty row.author_address)) row.snippet
        (text_or_empty row.body_text)

  -- The predicates of `message_list_query` but the one of the cursor.
  unfoldable pub is_wanted :
      MessageQuery → Option (String → String → String → String → Bool) → MessageRow Text → Bool
  is_wanted query search row =
      wants query.account_id (some row.account_id)
      && (wants query.mailbox_id row.mailbox_id
          && (not (query.unread_only && row.is_read) && found_by search row))

  -- `message_list_query`: its WHERE, ORDER BY and LIMIT.
  unfoldable pub message_list_query :
      MessageQuery
      → Option Position
      → Option (String → String → String → String → Bool)
      → ℕ
      → List (MessageRow Text)
      → List (MessageRow Text)
  unfolding is_wanted newest_first
  message_list_query query cursor search limit rows = take limit (
      order_by newest_first (filter (λ row. is_wanted query search row && is_past cursor row) rows))

abbrev pub get_last? {ℓ} : {A : Type ℓ} → List A → Option A
get_last? [] = none
get_last? (x ∷ []) = some x
get_last? (x ∷ y ∷ xs) = get_last? (y ∷ xs)

module _ {Json Text : Type 0} (serde : Serde Json Text) where
  unfoldable pub encode_cursor : MessageSummary Json → String
  encode_cursor m = serde.cursor.to_string (m.timestamp, m.id)

  unfoldable pub decode_cursor : String → Result Position
  decode_cursor cursor = elim (serde.cursor.from_str cursor) [
    | none ↦ err invalid_cursor
    | some position ↦ if position.1 == "" then err invalid_cursor else ok position
  ]

  unfoldable pub decode_query_cursor : Option String → Result (Option Position)
  unfolding decode_cursor
  decode_query_cursor none = ok none
  decode_query_cursor (some cursor) = decode_cursor cursor >>= λ position. ok (some position)

  -- A search that SQLite's full-text index does not parse is an error of the statement.
  unfoldable pub run_search :
      Option String → Result (Option (String → String → String → String → Bool))
  run_search none = ok none
  run_search (some search) = elim (serde.search_matches search) [
    | none ↦ err sqlite
    | some matches ↦ ok (some matches)
  ]

  abbrev pub cursor_after : Bool → Option (MessageSummary Json) → Option String
  cursor_after true (some m) = some (encode_cursor m)
  cursor_after _ _ = none

  unfoldable pub page_of : ℕ → List (MessageSummary Json) → MessagePage Json
  page_of limit found = record {
    messages = take limit found;
    next_cursor = cursor_after (ltb limit (length found)) (get_last? (take limit found));
  }

  unfoldable pub list_messages : MessageQuery → Repository Text → Result (MessagePage Json)
  list_messages query r = do
    let limit = clamp_limit query.limit
    cursor ← decode_query_cursor query.cursor
    search ← run_search (unless_blank query.search)
    found ← collect_summaries serde (message_list_query query cursor search (limit + 1) r.messages)
    ok (page_of limit found)

  unfoldable pub dashboard_snapshot : ℤ → Repository Text → Result (DashboardSnapshot Json)
  dashboard_snapshot now r = do
    page ←
        list_messages
          (record {
            account_id = none;
            mailbox_id = none;
            search = none;
            unread_only = false;
            cursor = none;
            limit = 30;
          })
          r
    tasks ← list_tasks serde.valid_millis true r
    events ← list_events serde.valid_millis (now +ℤ negsuc 86399999) (now +ℤ pos 1209600000) r
    revision ← read_revision r
    ok (record {
      revision = revision;
      accounts = list_accounts r;
      recent_mail = page.messages;
      tasks = tasks;
      events = events;
      sync = record { running = false; last_sync_at = none; error = none };
    })
