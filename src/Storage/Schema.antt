-- ===== src/Storage/Schema.antt =====
-- The tables that `migrate` of crates/quickmaild/src/storage.rs creates (schema version 9), as
-- lists of rows in the order of their row numbers. The full-text index is left out: its triggers
-- keep it a function of the `messages` table.
use quick_mail.Prelude.{ℕ, ℤ, String, Bool, Option, List, ltb}
use quick_mail.Models.{Account, Task, CalendarEvent}

-- The unread and total counts are those of `account`.
pub record AccountRow (Text : Type 0) : Type 0 where
  pub account : Account
  pub config_json : Text
  pub auth_state : String
  pub auth_error : Option String
  pub updated_at : ℤ

pub record MailboxRow : Type 0 where
  pub id : String
  pub account_id : String
  pub name : String
  pub role : Option String
  pub unread : ℕ
  pub total : ℕ

pub record SyncRow : Type 0 where
  pub account_id : String
  pub mailbox_id : String
  pub cursor : String
  pub updated_at : ℤ

pub record MessageRow (Text : Type 0) : Type 0 where
  pub id : String
  pub account_id : String
  pub mailbox_id : Option String
  pub thread_id : Option String
  pub subject : String
  pub author_name : Option String
  pub author_address : Option String
  pub timestamp_ms : ℤ
  pub is_read : Bool
  pub starred : Bool
  pub snippet : String
  pub has_attachments : Bool
  pub labels_json : Text
  pub provider_data_json : Text
  pub to_json : Text
  pub cc_json : Text
  pub bcc_json : Text
  pub body_text : Option String
  pub body_html : Option String
  pub attachments_json : Text
  pub body_loaded : Bool
  pub updated_at : ℤ

pub record OperationRow (Text : Type 0) : Type 0 where
  pub id : String
  pub kind : String
  pub payload_json : Text
  pub state : String
  pub created_at : ℤ
  pub attempted_at : Option ℤ
  pub last_error : Option String

pub record DraftRow (Text : Type 0) : Type 0 where
  pub id : String
  pub account_id : String
  pub message_json : Text
  pub updated_at : ℤ

-- `Repository`: the database behind the connection. `revision` is the number in `metadata`.
pub record Repository (Text : Type 0) : Type 0 where
  pub revision : ℕ
  pub accounts : List (AccountRow Text)
  pub mailboxes : List MailboxRow
  pub sync_state : List SyncRow
  pub messages : List (MessageRow Text)
  pub tasks : List Task
  pub events : List CalendarEvent
  pub operations : List (OperationRow Text)
  pub drafts : List (DraftRow Text)

abbrev pub account_key : {Text : Type 0} → AccountRow Text → String
account_key r = r.account.id

abbrev pub mailbox_key : MailboxRow → String × String
mailbox_key r = (r.account_id, r.id)

abbrev pub sync_key : SyncRow → String × String
sync_key r = (r.account_id, r.mailbox_id)

abbrev pub message_key : {Text : Type 0} → MessageRow Text → String
message_key r = r.id

abbrev pub task_key : Task → String
task_key r = r.id

abbrev pub event_key : CalendarEvent → String
event_key r = r.id

abbrev pub operation_key : {Text : Type 0} → OperationRow Text → String
operation_key r = r.id

abbrev pub draft_key : {Text : Type 0} → DraftRow Text → String
draft_key r = r.id

-- SQLite keeps an INTEGER in 64 bits with a sign; rusqlite refuses a `u64` beyond.
abbrev pub fits_i64 : ℕ → Bool
fits_i64 n = ltb n 9223372036854775808
