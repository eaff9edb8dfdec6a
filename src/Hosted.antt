-- ===== src/Hosted.antt =====
-- packages/hosted/src: what a hosted agent may delegate.
pub mod Allowance
mod Tests
