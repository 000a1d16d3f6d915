-- ===== src/Execution.antt =====
-- src/workspace_guard_mcp/execution.py
pub mod State
pub mod Record
pub mod Event
pub mod Lifecycle
pub mod Validation
