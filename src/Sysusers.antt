-- ===== src/Sysusers.antt =====
-- src/sysusers: the `sysusers.d` configuration format.
pub mod Name
pub mod Id
pub mod Entry
pub mod Format
pub mod Data
pub mod Nom
pub mod Parse
pub mod Grammar
pub mod Cases
