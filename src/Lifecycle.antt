-- ===== src/Lifecycle.antt =====
-- Abilities, their heartbeats and the requests on their lifecycle: src/lifecyclemgr.
pub mod Heartbeat
pub mod Client
pub mod Manager
pub mod Requests
pub mod Laws
