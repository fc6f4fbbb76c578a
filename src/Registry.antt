-- ===== src/Registry.antt =====
-- Private-registry preparation: src/skills_sdk/distribution/private_registry.py, with the models of
-- src/skills_sdk/models/registry.py.
pub mod Redaction
pub mod Version
pub mod Models
pub mod Validation
pub mod Evidence
pub mod Prepare
pub mod Candidate
pub mod Laws
pub mod Blockers
pub mod Totality
pub mod Release
mod Tests
