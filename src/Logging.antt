-- ===== src/Logging.antt =====
-- src/logging.rs: logging to journald.
pub mod Priority
pub mod Field
pub mod Payload
pub mod Protocol
pub mod Cases
pub mod Message
pub mod Send
pub mod Stream
