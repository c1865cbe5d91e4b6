-- ===== src/Tests.antt =====
-- Runs of the model on concrete inputs.
pub mod Checked
pub mod Demo
pub mod Scenarios
pub mod Witnesses
pub mod Units
pub mod Link
pub mod Setup
pub mod Board
pub mod Runner
pub mod Text
pub mod Plan
pub mod Sequence
