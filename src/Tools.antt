-- ===== src/Tools.antt =====
-- The tools of the agent, server/internal/tool: `Registry` here, the tools in the modules below.
pub mod Registry
pub mod Email
pub mod Memories
pub mod Items
pub mod Reminders
pub mod Documents
pub mod Box
