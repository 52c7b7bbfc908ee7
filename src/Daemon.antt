-- ===== src/Daemon.antt =====
-- src/daemon.rs: the watchdog and the notifications to the service manager.
pub mod Watchdog
pub mod Fdname
pub mod State
pub mod Notify
pub mod Booted
