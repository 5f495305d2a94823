-- ===== src/Lib.antt =====
-- QuickMail's local mail cache, the storage engine of the daemon, and its IMAP provider.
--
-- QuickMail is a mail client in three programs: a daemon that talks to mail providers and keeps a
-- local cache (crates/quickmaild), a window in QML and C++ (qml, ui), and a command line client
-- (crates/quickmailctl). The programs share the types of crates/quickmail-core. Providers hand pages
-- of messages, mailboxes, tasks and events to the daemon, the daemon stores them in an SQLite database
-- (crates/quickmaild/src/storage.rs) and answers every request of the clients from it, and what a
-- client changes is queued there as an operation until a provider has confirmed it. This library
-- models that database with all its operations, the provider of IMAP and SMTP
-- (crates/quickmaild/src/providers/imap_smtp.rs) as far as it is not the protocol itself, and what the
-- two do together: a page of a mailbox goes from `sync_mailbox` to `apply_mailbox_sync_page`.
--
-- Files and code:
-- - Models, Models/Ids: crates/quickmail-core/src/models.rs, the wire types and
--   `normalized_message_id`, `is_normalized_message_id`. Provider: the types of
--   crates/quickmail-core/src/provider.rs that the cache uses.
-- - Storage/Table: what a statement does to one table (SELECT by key, INSERT .. ON CONFLICT, UPDATE,
--   DELETE), over a list of rows. Storage/Order: ORDER BY. Storage/Schema: the rows of the tables that
--   `migrate` creates, and the `Repository` that holds them. Storage/Result: `StorageError`.
--   Storage/Serde: what the code relies on of serde_json, chrono and SQLite's functions, as a record of
--   operations and laws that every definition takes as a parameter.
-- - Storage/Accounts, Mailboxes, SyncPage, Messages, Listing, Threads, Actions, Operations, Agenda,
--   Drafts, Scope, Revision: the methods of `Repository` in crates/quickmaild/src/storage.rs, under
--   their names (`Repository::upsert_account_config` is `upsert_account_config`). Where a method is
--   long, its checks, loops and statements have definitions of their own, composed in the order of the
--   code. The child modules hold the lemmas and the theorems.
-- - Storage/Database: the worker thread. `Database::call` sends a job to one thread, which runs the
--   jobs in order, so a list of `Call`s is a history of the database.
-- - Storage/Integrity: the invariant of the tables, and that each call preserves it.
-- - Codec: Decimal, Split and Utf8 are the standard library's `to_string`, `parse`, `split`, `as_bytes`
--   and `from_utf8`; Hex is `encode_hex` and `decode_hex` of imap_smtp.rs; Base64 is the base64 of
--   crates/quickmaild/src/providers/gmail.rs and mime.rs.
-- - Imap: crates/quickmaild/src/providers/imap_smtp.rs. Error: its errors. StableId and Cursor: the
--   texts of `StableImapId` and `UidCursor`. Search: which UIDs are asked for and make a page. Session:
--   `run_session_operation_on`, the loop that reconnects. Transport: the operations of
--   `AsyncImapTransport` over the commands of a `Server`, which stands for the library async_imap.
--   Threads: `canonical_rfc_message_id` and the ids of conversations. Provider, with its children
--   Actions and Mailboxes: the operations of `ImapSmtpProvider` over the trait `ImapTransport`. Smtp:
--   addresses and the data of a message. The other child modules hold lemmas and theorems.
-- - Daemon: crates/quickmaild/src/daemon.rs. Dispatch: `apply_provider_action`, with the providers'
--   `apply_action` as a parameter; the code's `HashMap` of groups is a list, in the order in which the
--   groups arise. Counts: `account_counts_from_mailboxes`. Addresses: `is_public_ip`. Files:
--   `safe_attachment_name`, and `sanitize_filename` of crates/quickmaild/src/providers/mime.rs.
-- - Prelude: numbers, tests and lists. Tests: the theorems at concrete data.
--
-- How the code is modelled:
-- - A method that writes returns the new repository, or an error. The code runs each method in one
--   transaction that is rolled back when an error returns, so an error keeps the old repository
--   (`committed`). Constraints of the schema are guards: a primary key that is taken, a reference to a
--   missing account, a unique index. `ON DELETE CASCADE` is written out in `delete_account_row`.
-- - A time is its number of milliseconds, an integer; the time of the call (`Utc::now()`) and a new
--   UUID are arguments. A number that SQLite cannot keep in 64 bits is an error.
-- - A text is the native string; it is compared by its characters, which is the order of its UTF-8
--   bytes. `COLLATE NOCASE` folds the letters A to Z.
-- - A column of JSON has an abstract type of documents; the codecs of `Serde` write it and read it
--   back. A document that cannot be read is an error, as in the code. Full-text search is a function
--   of `Serde` on the indexed texts.
-- - An operation of a provider takes the state of its connection and returns its answer and the state
--   after it, also after an error (`Step`). A timer that ends a command is one of the errors that the
--   command may answer. Text is the native string, bytes are numbers.
-- - All loops are structural recursion on lists, except these, which have fuel: `walk`, the client that
--   follows page cursors, `catch_up`, the client that searches on, and `session_loop`; the theorems on
--   them say how much is enough. The digits of a u64 are written with fuel 19, for twenty digits, and
--   `recent_uid_search_windows` makes sixteen rounds, as the code does.
--
-- Not modelled: opening the database file, its permissions, the journal and the migrations of old
-- schemas (I/O and rewriting of tables that no longer exist); the sample data of `seed_demo`; the
-- daemon's sockets, recovery of operations, validation and sanitizer (crates/quickmaild/src/daemon.rs); the sockets, TLS and
-- parsers of IMAP and SMTP, the fetching of messages and STATUS of mailboxes, the SMTP dialogue; the
-- MIME parser and builder except base64 and file names (providers/mime.rs), and the other providers (gmail.rs except
-- base64, microsoft_graph.rs, agenda.rs, auth.rs, factory.rs); the RPC types (crates/quickmail-core/src/rpc.rs, except the two
-- types of drafts), the command line client and the windows.
pub mod Codec
pub mod Daemon
pub mod Imap
pub mod Prelude
pub mod Models
pub mod Provider
pub mod Storage
mod Tests
