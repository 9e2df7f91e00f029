-- ===== src/Examples.antt =====
-- Runs of the development's definitions on concrete inputs.
pub mod Policies
pub mod Databases
pub mod Calls
pub mod Cursors
pub mod Sessions
pub mod Manifests
pub mod Debts
