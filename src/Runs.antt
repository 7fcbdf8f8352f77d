-- ===== src/Runs.antt =====
-- test-runs/: the statuses of a test run, and the service that moves a run through them.
pub mod Status
pub mod Run
pub mod Rows
pub mod Updates
pub mod State
pub mod Progress
pub mod Guarantee
pub mod Operations
mod Tests
