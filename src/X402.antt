-- ===== src/X402.antt =====
-- packages/x402/src: payments that are settled once.
pub mod Store
pub mod Reconcile
mod Tests
