-- ===== src/Session.antt =====
-- aeloon_runtime/runtime/session.py
pub mod Entry
pub mod Tree
pub mod Context
pub mod ContextCache
pub mod Lifetime
pub mod State
pub mod Statistics
pub mod Calls
pub mod Reading
pub mod Histories
pub mod Repository
