-- ===== src/A2a.antt =====
-- packages/a2a/src: what a provider says about its work, kept apart from the escrow.
pub mod States
pub mod Machine
mod Tests
