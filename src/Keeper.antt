-- ===== src/Keeper.antt =====
-- services/keeper: what the keeper sees of a job, what it may do, and its ticks.
pub mod Decide
pub mod Budget
pub mod Gas
pub mod JobState
pub mod Retry
pub mod Chain
pub mod Holds
pub mod Report
pub mod Settle
pub mod Tick
pub mod Expiries
pub mod Blocked
pub mod Failures
mod RunTests
pub mod Tests
