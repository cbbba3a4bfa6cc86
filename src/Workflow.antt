-- ===== src/Workflow.antt =====
-- The event workflow: which action is allowed in which state, and who may override.
pub mod Rules
pub mod Engine
pub mod Decisions
pub mod Permit
mod Tests
