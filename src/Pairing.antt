-- ===== src/Pairing.antt =====
-- aeloon_runtime/pairing.py
pub mod Devices
pub mod Enrollment
pub mod Limiter
