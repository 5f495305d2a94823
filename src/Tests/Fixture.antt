-- ===== src/Tests/Fixture.antt =====
-- A concrete `Serde`, and concrete mail. A document is kept as the value that it was written from;
-- a page cursor is its time, counted out, and the id.
use Prim.Native.Char.{code}
use quick_mail.Prelude.{
  ℕ, zero, suc, ℤ, pos, negsuc, String, Bool, true, false, ◌≡◌, refl, Option, none, some, List, [],
  ◌∷◌, nat_beq, ◌==◌, string_eq, beq_refl, if◌then◌else◌,
}
use quick_mail.Models.{Account, MessageSummary, Message, Address, Attachment, Task, CalendarEvent}
use quick_mail.Provider.{MailAction, OutgoingMessage, MailboxSyncPage}
use quick_mail.Storage.Serde.{Serde}
use quick_mail.Storage.Schema.{AccountRow, MessageRow, OperationRow, Repository}
use quick_mail.Storage.Result.{Result, ok, err}

pub data Json : Type 0 where
  null : Json
  object : List (String × String) → Json

pub data Doc : Type 0 where
  value : Json → Doc
  labels : List String → Doc
  addresses : List Address → Doc
  attachments : List Attachment → Doc
  outgoing : OutgoingMessage → Doc
  action : MailAction → Doc

abbrev read_value : Doc → Option Json
read_value (value j) = some j
read_value _ = none

abbrev read_labels : Doc → Option (List String)
read_labels (labels l) = some l
read_labels _ = none

abbrev read_addresses : Doc → Option (List Address)
read_addresses (addresses l) = some l
read_addresses (labels []) = some []
read_addresses _ = none

abbrev read_attachments : Doc → Option (List Attachment)
read_attachments (attachments l) = some l
read_attachments (labels []) = some []
read_attachments _ = none

abbrev read_outgoing : Doc → Option OutgoingMessage
read_outgoing (outgoing m) = some m
read_outgoing _ = none

abbrev is_object : Json → Bool
is_object null = false
is_object (object fields) = true

abbrev lookup : String → List (String × String) → Option String
lookup field [] = none
lookup field ((f, t) ∷ fields) = if f == field then some t else lookup field fields

abbrev get_str : String → Json → Option String
get_str field null = none
get_str field (object fields) = lookup field fields

abbrev set_str : String → String → Json → Json
set_str field text null = null
set_str field text (object fields) = object ((field, text) ∷ fields)

pub set_str-is_object :
    (f t : String) (j : Json) → is_object j ≡ true → is_object (set_str f t j) ≡ true
set_str-is_object f t null h = h
set_str-is_object f t (object fields) h = h

pub get_str-set_str :
    (f t : String) (j : Json) → is_object j ≡ true → get_str f (set_str f t j) ≡ some t
get_str-set_str f t null h = absurd cc
get_str-set_str f t (object fields) h = rw (beq_refl f)

abbrev count : ℕ → String → String
count zero s = String.◌∷◌ "|" s
count (suc n) s = String.◌∷◌ "+" (count n s)

abbrev one_more : Option (ℕ × String) → Option (ℕ × String)
one_more none = none
one_more (some (n, s)) = some (suc n, s)

abbrev uncount : String → Option (ℕ × String)
uncount String.[] = none
uncount (String.◌∷◌ c s) =
    let rest = one_more (uncount s) in if nat_beq (code c) 124 then some (0, s) else rest

uncount-count : (n : ℕ) (s : String) → uncount (count n s) ≡ some (n, s)
uncount-count zero s = refl
uncount-count (suc n) s = rw (uncount-count n s)

abbrev write_cursor : ℤ × String → String
write_cursor (pos n, s) = String.◌∷◌ "p" (count n s)
write_cursor (negsuc n, s) = String.◌∷◌ "n" (count n s)

abbrev signed : ℕ → Option (ℕ × String) → Option (ℤ × String)
signed sign none = none
signed sign (some (n, s)) = if nat_beq sign 112 then some (pos n, s) else some (negsuc n, s)

abbrev read_cursor : String → Option (ℤ × String)
read_cursor String.[] = none
read_cursor (String.◌∷◌ c s) = signed (code c) (uncount s)

pub read-write : (p : ℤ × String) → read_cursor (write_cursor p) ≡ some p
read-write (pos n, s) = rw (uncount-count n s)
read-write (negsuc n, s) = rw (uncount-count n s)

abbrev pub serde : Serde Json Doc
serde = record {
  value = record { to_string = value; from_str = read_value; round_trip = λ j. refl };
  labels = record { to_string = labels; from_str = read_labels; round_trip = λ l. refl };
  addresses = record { to_string = addresses; from_str = read_addresses; round_trip = λ l. refl };
  attachments = record {
    to_string = attachments;
    from_str = read_attachments;
    round_trip = λ l. refl;
  };
  outgoing = record { to_string = outgoing; from_str = read_outgoing; round_trip = λ m. refl };
  mail_action = action;
  cursor = record { to_string = write_cursor; from_str = read_cursor; round_trip = read-write };
  empty_array = labels [];
  empty_object = object [];
  is_object = is_object;
  get_str = get_str;
  get_strings = λ field j. [];
  set_str = set_str;
  set_str-is_object = set_str-is_object;
  get_str-set_str = get_str-set_str;
  empty_object_lem = refl;
  empty_addresses = refl;
  empty_attachments = refl;
  valid_millis = λ t. true;
  extract_message_id = λ doc. some none;
  search_matches = λ search. some (λ subject author snippet body. subject == search);
}

abbrev pub account : String → Account
account id = record {
  id = id;
  address = id;
  display_name = "";
  provider = "imap";
  protocol = "imap";
  host = "";
  unread = 0;
  total = 0;
  enabled = true;
}

abbrev pub summary : String → ℕ → MessageSummary Json
summary id time = record {
  id = id;
  account_id = "a";
  mailbox_id = some "inbox";
  thread_id = some "t";
  subject = "hello";
  author = none;
  timestamp = pos time;
  is_read = false;
  starred = false;
  snippet = "";
  has_attachments = false;
  labels = [];
  provider_data = null;
}

abbrev pub message : String → ℕ → Message Json
message id time = record {
  summary = summary id time;
  to = [];
  cc_list = [];
  bcc = [];
  body_text = some "text";
  body_html = none;
  attachments = [];
}

abbrev pub letter : OutgoingMessage
letter = record {
  draft_id = none;
  account_id = "a";
  to = [];
  cc_list = [];
  bcc = [];
  subject = "draft";
  body_text = none;
  body_html = none;
  in_reply_to = none;
}

abbrev pub task : String → String → Task
task id source = record {
  id = id;
  title = "";
  description = "";
  done = false;
  due_at = none;
  created_at = pos 1;
  source = source;
  external_id = "";
  account = "a";
}

abbrev pub event : String → CalendarEvent
event id = record {
  id = id;
  external_id = "";
  calendar_id = "a:work";
  calendar_name = "";
  title = "";
  description = "";
  start_at = pos 5;
  end_at = pos 6;
  all_day = false;
  read_only = false;
}

abbrev pub message_row : String → ℕ → MessageRow Doc
message_row id time = record {
  id = id;
  account_id = "a";
  mailbox_id = some "inbox";
  thread_id = some "t";
  subject = "hello";
  author_name = none;
  author_address = none;
  timestamp_ms = pos time;
  is_read = false;
  starred = false;
  snippet = "";
  has_attachments = false;
  labels_json = labels [];
  provider_data_json = value null;
  to_json = addresses [];
  cc_json = addresses [];
  bcc_json = addresses [];
  body_text = some "text";
  body_html = none;
  attachments_json = attachments [];
  body_loaded = true;
  updated_at = pos 0;
}

abbrev account_row : String → AccountRow Doc
account_row id = record {
  account = account id;
  config_json = value null;
  auth_state = "needs_auth";
  auth_error = none;
  updated_at = pos 0;
}

abbrev operation_row : String → String → OperationRow Doc
operation_row id kind = record {
  id = id;
  kind = kind;
  payload_json = value (object (("accountId", "a") ∷ []));
  state = "pending";
  created_at = pos 0;
  attempted_at = none;
  last_error = none;
}

-- Two accounts; of the first a mailbox with two messages, a remote and a local task, an event, two
-- operations that wait, and a draft.
abbrev pub stocked : Repository Doc
stocked = record {
  revision = 7;
  accounts = account_row "a" ∷ account_row "b" ∷ [];
  mailboxes =
      record {
        id = "inbox";
        account_id = "a";
        name = "Inbox";
        role = some "inbox";
        unread = 0;
        total = 0;
      }
      ∷ [];
  sync_state =
      record { account_id = "a"; mailbox_id = "inbox"; cursor = "old"; updated_at = pos 0 } ∷ [];
  messages = message_row "a:1" 1 ∷ message_row "a:2" 2 ∷ [];
  tasks = task "t1" "google_tasks" ∷ task "t2" "local" ∷ [];
  events = event "e1" ∷ [];
  operations = operation_row "o1" "agenda_task_create" ∷ operation_row "o2" "mail_action" ∷ [];
  drafts =
      record { id = "d1"; account_id = "a"; message_json = outgoing letter; updated_at = pos 0 }
      ∷ [];
}

-- The repository that a call returns, and the number beside it.
abbrev pub after_call : {A : Type 0} → Result (Repository Doc × A) → Repository Doc
after_call (ok p) = p.0
after_call (err e) = stocked

abbrev pub number_of : Result (Repository Doc × ℕ) → ℕ
number_of (ok p) = p.1
number_of (err e) = 0

-- A page of the mailbox: one message that is new, and one that is gone.
abbrev pub page : Bool → MailboxSyncPage Json
page reset = record {
  messages = summary "a:3" 3 ∷ [];
  removed_message_ids = "a:1" ∷ [];
  cursor = some "new";
  reset = reset;
}
