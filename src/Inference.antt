-- ===== src/Inference.antt =====
-- aeloon_runtime/core/inference_runtime.py
pub mod Projection
pub mod Retry
