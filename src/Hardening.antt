-- ===== src/Hardening.antt =====
-- packages/hardening: the limits and guards of the services.
pub mod Idempotency
pub mod RateLimit
pub mod RpcFailover
pub mod Ssrf
mod Tests
