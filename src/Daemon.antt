-- ===== src/Daemon.antt =====
-- Parts of crates/quickmaild/src/daemon.rs that stand between clients, cache and providers.
pub mod Dispatch
pub mod Counts
pub mod Addresses
pub mod Files
