-- ===== src/Services.antt =====
-- The supervision of services: src/lifecyclemgr/service_lifecycle.cpp.
pub mod Entry
pub mod Manager
pub mod Totals
pub mod Stops
pub mod Health
mod Tests
