-- ===== src/Streams.antt =====
-- aeloon_runtime/runtime/providers/openai.py
pub mod Reasoning
pub mod Folding
