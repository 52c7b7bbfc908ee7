-- ===== src/Tests.antt =====
-- Runs of the model at concrete inputs, most of them from the source's own tests, and the theorems
-- at inputs that meet their hypotheses.
mod SampleNom
mod Unit
mod Sysusers
mod Logging
mod Daemon
mod Activation
mod Journal
mod Ids
mod Credentials
mod Process
mod Examples
mod Integration
mod Cases
