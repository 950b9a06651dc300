-- ===== src/Run.antt =====
-- aeloon_runtime/core/runner.py: one run of an agent.
pub mod Engine
pub mod Turns
pub mod Agent
pub mod View
pub mod Overflow
pub mod Quiet
