-- ===== src/Tests.antt =====
-- Runs of the model on concrete inputs, and the theorems applied to them.
pub mod Locks
pub mod Settings
pub mod Program
pub mod Backups
pub mod Reports
pub mod Again
pub mod Graph
pub mod Texts
pub mod Store
pub mod Run
pub mod Checks
pub mod Workers
pub mod Options
