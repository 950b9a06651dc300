-- ===== src/Service.antt =====
-- aeloon_runtime/runtime/service.py
pub mod Lifecycle
