-- ===== src/Tasks.antt =====
-- The task manager's tasks (include/taskmgr, src/taskmgr).
pub mod State
pub mod Task
pub mod Leaf
pub mod Composite
pub mod Resume
pub mod Drive
pub mod Waiting
pub mod Atoms
pub mod Sequence
pub mod Search
pub mod Parallel
pub mod Manager
pub mod Names
mod Tests
