-- ===== src/BlockStream.antt =====
-- blockstream.go: the fold of a session's events into blocks.
pub mod State
pub mod Text
pub mod Reasoning
pub mod Responses
pub mod Items
pub mod Calls
pub mod Fold
pub mod Keeps
pub mod Kept
pub mod Blind
pub mod Streamed
pub mod Polite
pub mod Reports
pub mod Shown
pub mod Reported
pub mod Flushed
mod Examples
