-- ===== src/Schema.antt =====
-- The checks of documents against schemas: src/resourcemgr/json_schema_utils.cpp.
mod Expand
mod Plain
mod Kept
mod Refs
mod Hidden
mod Validate
mod Checked
mod Tasks
mod Declared
mod Tests
