-- ===== src/Imap.antt =====
-- The IMAP and SMTP provider, crates/quickmaild/src/providers/imap_smtp.rs.
pub mod Error
pub mod StableId
pub mod Cursor
pub mod Search
pub mod Session
pub mod Transport
pub mod Threads
pub mod Provider
pub mod Smtp
