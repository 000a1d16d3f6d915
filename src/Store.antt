-- ===== src/Store.antt =====
-- src/workspace_guard_mcp/execution_store.py: the events, their validation and the in-memory store.
pub mod Events
pub mod History
pub mod Memory
pub mod Queries
pub mod Sqlite
pub mod Written
pub mod Append
pub mod Prune
pub mod Invariant
pub mod Plans
pub mod Writes
pub mod Keeps
pub mod Reach
pub mod Pages
pub mod Behaviour
pub mod Frame
pub mod Backwards
