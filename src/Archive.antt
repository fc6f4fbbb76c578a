-- ===== src/Archive.antt =====
-- Archive verification: src/skills_sdk/packaging/archive_verification.py.
pub mod Bytes
pub mod Directory
pub mod Receipts
pub mod Entries
pub mod Payload
pub mod Verify
pub mod Blocks
mod Tests
