-- ===== src/Tests.antt =====
-- Runs of the cache of crates/quickmaild/src/storage.rs at concrete data, through the theorems.
mod Fixture
mod Integrity
mod Mail
mod Agenda
mod Servers
mod Synchronising
mod Encodings
mod Dispatching
