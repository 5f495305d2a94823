-- ===== src/Models.antt =====
-- crates/quickmail-core/src/models.rs: the wire types. `Json` is the type of JSON values
-- (`serde_json::Value`). A `DateTime<Utc>` is its number of milliseconds, which is how the types
-- travel (`ts_milliseconds`) and how the tables keep them.
pub mod Ids
use quick_mail.Prelude.{ℕ, ℤ, String, Bool, Option, List}

abbrev pub DateTime : Type 0
DateTime = ℤ

pub record Account : Type 0 where
  pub id : String
  pub address : String
  pub display_name : String
  pub provider : String
  pub protocol : String
  pub host : String
  pub unread : ℕ
  pub total : ℕ
  pub enabled : Bool

pub data MailboxRole : Type 0 where
  inbox drafts sent archive trash spam other : MailboxRole

pub record Mailbox : Type 0 where
  pub id : String
  pub account_id : String
  pub name : String
  pub role : Option MailboxRole
  pub unread : ℕ
  pub total : ℕ

pub record Address : Type 0 where
  pub name : String
  pub address : String

pub record MessageSummary (Json : Type 0) : Type 0 where
  pub id : String
  pub account_id : String
  pub mailbox_id : Option String
  pub thread_id : Option String
  pub subject : String
  pub author : Option Address
  pub timestamp : DateTime
  pub is_read : Bool
  pub starred : Bool
  pub snippet : String
  pub has_attachments : Bool
  pub labels : List String
  pub provider_data : Json

pub record Attachment : Type 0 where
  pub id : String
  pub filename : String
  pub content_type : String
  pub size : ℕ
  pub is_inline : Bool
  pub content_id : Option String

pub record Message (Json : Type 0) : Type 0 where
  pub summary : MessageSummary Json
  pub to : List Address
  pub cc_list : List Address
  pub bcc : List Address
  pub body_text : Option String
  pub body_html : Option String
  pub attachments : List Attachment

pub record ThreadConversation (Json : Type 0) : Type 0 where
  pub id : String
  pub messages : List (MessageSummary Json)
  pub truncated : Bool

pub record Task : Type 0 where
  pub id : String
  pub title : String
  pub description : String
  pub done : Bool
  pub due_at : Option DateTime
  pub created_at : DateTime
  pub source : String
  pub external_id : String
  pub account : String

pub record CalendarEvent : Type 0 where
  pub id : String
  pub external_id : String
  pub calendar_id : String
  pub calendar_name : String
  pub title : String
  pub description : String
  pub start_at : DateTime
  pub end_at : DateTime
  pub all_day : Bool
  pub read_only : Bool

pub record SyncStatus : Type 0 where
  pub running : Bool
  pub last_sync_at : Option DateTime
  pub error : Option String

pub record DashboardSnapshot (Json : Type 0) : Type 0 where
  pub revision : ℕ
  pub accounts : List Account
  pub recent_mail : List (MessageSummary Json)
  pub tasks : List Task
  pub events : List CalendarEvent
  pub sync : SyncStatus
