-- ===== src/Election.antt =====
-- The election of a leader among frameworks (src/discoverymgr/election_mgr.cpp and
-- src/discoverymgr/election_methods/bully.cpp).
pub mod Message
pub mod Bully
pub mod Order
pub mod Leader
pub mod Takeover
pub mod Records
mod Addresses
mod Wire
mod Posts
mod Split
mod Peers
mod Segments
mod Tests
