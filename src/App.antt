-- ===== src/App.antt =====
-- app/src/lib: what the application shows of a job and offers to do.
pub mod Actions
pub mod Clock
pub mod Phase
pub mod Inbox
mod Tests
