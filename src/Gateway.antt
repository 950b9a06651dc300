-- ===== src/Gateway.antt =====
-- aeloon_runtime/runtime_server.py
pub mod Events
pub mod Connection
pub mod Handshake
