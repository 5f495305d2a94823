-- ===== src/Storage/Serde.antt =====
-- What crates/quickmaild/src/storage.rs uses of serde_json and chrono, which the repository does
-- not hold: `Json` is `serde_json::Value`, and `Text` the type of JSON documents as they stand in
-- a column, which the cache never looks into. The laws are what those libraries document.
use quick_mail.Prelude.{ℤ, String, Bool, true, Option, some, List, [], ◌≡◌}
use quick_mail.Models.{Address, Attachment}
use quick_mail.Provider.{MailAction, OutgoingMessage}

-- Values written as text, and read back.
pub record Codec (Text A : Type 0) : Type 0 where
  pub to_string : A → Text
  pub from_str : Text → Option A
  pub round_trip : (a : A) → from_str (to_string a) ≡ some a

pub record Serde (Json Text : Type 0) : Type 0 where
  pub value : Codec Text Json
  pub labels : Codec Text (List String)
  pub addresses : Codec Text (List Address)
  pub attachments : Codec Text (List Attachment)
  pub outgoing : Codec Text OutgoingMessage
  -- `serde_json::to_string(action)` for a `MailAction`.
  pub mail_action : MailAction → Text
  -- The page cursor, a pair of a time and a message id, travels as a string.
  pub cursor : Codec String (ℤ × String)
  -- The text `[]`.
  pub empty_array : Text
  -- `Value::Object(Default::default())`.
  pub empty_object : Json
  pub is_object : Json → Bool
  -- `payload.get(field).and_then(Value::as_str)`.
  pub get_str : String → Json → Option String
  -- The texts of the array `payload.get(field).and_then(Value::as_array)`; none if it is absent.
  pub get_strings : String → Json → List String
  -- `payload[field] = Value::String(text)`.
  pub set_str : String → String → Json → Json
  pub set_str-is_object :
      (f t : String) (j : Json) → is_object j ≡ true → is_object (set_str f t j) ≡ true
  pub get_str-set_str :
      (f t : String) (j : Json) → is_object j ≡ true → get_str f (set_str f t j) ≡ some t
  pub empty_object_lem : is_object empty_object ≡ true
  pub empty_addresses : addresses.from_str empty_array ≡ some []
  pub empty_attachments : attachments.from_str empty_array ≡ some []
  -- Whether chrono has a `DateTime` for the number of milliseconds.
  pub valid_millis : ℤ → Bool
  -- `CAST(json_extract(text, '$.messageId') AS TEXT)`, a function of SQLite: no document, no such
  -- value, or its text.
  pub extract_message_id : Text → Option (Option String)
  -- `id IN (SELECT … WHERE messages_fts MATCH search)`, SQLite's full-text search, over the id and
  -- the indexed texts (subject, author, snippet, body): nothing if the search does not parse.
  pub search_matches : String → Option (String → String → String → String → Bool)
