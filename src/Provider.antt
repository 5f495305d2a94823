-- ===== src/Provider.antt =====
-- crates/quickmail-core/src/provider.rs: the types that providers and the cache exchange.
use quick_mail.Prelude.{ℕ, String, Bool, Option, List}
use quick_mail.Models.{MessageSummary, Address}

pub record MessageQuery : Type 0 where
  pub account_id : Option String
  pub mailbox_id : Option String
  pub search : Option String
  pub unread_only : Bool
  pub cursor : Option String
  pub limit : ℕ

pub record MessagePage (Json : Type 0) : Type 0 where
  pub messages : List (MessageSummary Json)
  pub next_cursor : Option String

pub record MailboxSyncPage (Json : Type 0) : Type 0 where
  pub messages : List (MessageSummary Json)
  pub removed_message_ids : List String
  pub cursor : Option String
  pub reset : Bool

pub record MailboxSyncQuery : Type 0 where
  pub account_id : String
  pub mailbox_id : String
  pub cursor : Option String
  pub limit : ℕ
  pub reconcile_message_ids : List String

pub data MailAction : Type 0 where
  mark_read : List String → Bool → MailAction
  star : List String → Bool → MailAction
  archive : List String → MailAction
  trash : List String → MailAction
  move : List String → String → MailAction
  set_labels : List String → List String → MailAction

pub record OutgoingMessage : Type 0 where
  pub draft_id : Option String
  pub account_id : String
  pub to : List Address
  pub cc_list : List Address
  pub bcc : List Address
  pub subject : String
  pub body_text : Option String
  pub body_html : Option String
  pub in_reply_to : Option String

-- The variants of `ProviderError`, with their texts.
pub data ProviderError : Type 0 where
  authentication : String → ProviderError
  unsupported : String → ProviderError
  not_found : ProviderError
  temporary : String → ProviderError
  resource_too_large : String → ProviderError
  other : String → ProviderError
