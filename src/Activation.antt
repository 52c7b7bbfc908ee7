-- ===== src/Activation.antt =====
-- src/activation.rs: the descriptors that a socket-activated service is passed.
pub mod System
pub mod FileDescriptor
pub mod Cases
pub mod RawFd
pub mod Descriptor
pub mod Kinds
pub mod Receive
pub mod Received
pub mod Names
