-- ===== src/Examples.antt =====
-- The example programs of the repository.
pub mod Machine
pub mod PersistentState
pub mod Open
pub mod Supervised
pub mod Counting
pub mod Created
pub mod Restarts
pub mod Terminates
pub mod Watchdog
pub mod Notify
pub mod InTime
