-- ===== src/Resources.antt =====
-- The resource manager: src/resourcemgr/resource_mgr.cpp.
mod Tables
mod Ownership
mod Occupy
mod Selected
mod Holds
mod Requests
mod Exclusive
mod Devices
mod Instances
mod Passes
mod Retries
mod Session
mod Registered
mod Repeats
mod Templates
mod Routes
mod Replies
mod Stored
mod Tests
