-- ===== src/Indexer.antt =====
-- services/indexer: the reducer that rebuilds the contracts' state from their events.
pub mod State
pub mod Events
pub mod JobStatus
pub mod ListingStatus
pub mod Reducer
pub mod Apply
pub mod Views
pub mod Rows
pub mod Decode
pub mod Draft
pub mod Persist
pub mod Sync
pub mod Start
mod Tests
