-- ===== src/Integration.antt =====
-- The programs of tests.
pub mod PersistentState
pub mod Restarted
pub mod Journal
pub mod Retry
pub mod Shown
pub mod Connected
