-- ===== src/SafeRegex.antt =====
-- src/workspace_guard_mcp/safe_regex.py: character sets, the syntax tree of a pattern, the machine
-- that is built of it, and the search.
pub mod CharacterSet
pub mod Machine
pub mod Syntax
pub mod Build
pub mod Parser
pub mod Language
pub mod Literal
