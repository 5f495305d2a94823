-- ===== src/Storage.antt =====
-- crates/quickmaild/src/storage.rs: the cache of the daemon.
pub mod Table
pub mod Order
pub mod Result
pub mod Serde
pub mod Schema
pub mod Revision
pub mod Scope
pub mod Accounts
pub mod Mailboxes
pub mod Messages
pub mod SyncPage
pub mod Actions
pub mod Operations
pub mod Agenda
pub mod Listing
pub mod Threads
pub mod Database
pub mod Integrity
pub mod Drafts
