-- ===== src/Claude.antt =====
-- The client of the language model, server/internal/ai/claude.go.
pub mod Model
pub mod Client
pub mod Calls
