-- ===== src/Bus.antt =====
-- The message bus: include/messagebus/messagebus.hpp and src/messagebus/messagebus.cpp.
pub mod Message
pub mod Modules
pub mod Registry
mod Tests
