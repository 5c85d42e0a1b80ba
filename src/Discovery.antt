-- ===== src/Discovery.antt =====
-- The teams of frameworks: src/discoverymgr/discovery_mgr.cpp.
pub mod Teams
mod Rows
mod Jwt
mod Broadcasts
mod Heartbeats
mod Events
mod Tokens
mod Unmoved
mod Unchecked
mod Members
mod Peers
mod Ports
mod Packets
mod Meetings
mod Reports
mod Heard
mod Tests
