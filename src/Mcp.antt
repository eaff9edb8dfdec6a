-- ===== src/Mcp.antt =====
-- packages/mcp/src: what an agent's tool calls are answered from.
pub mod Cache
mod Tests
