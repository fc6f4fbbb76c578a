-- ===== src/Evaluation.antt =====
-- The deterministic evaluation of scenarios: src/skills_sdk/evaluation/deterministic.py with the
-- models of src/skills_sdk/models/evaluation.py.
pub mod Models
pub mod Deterministic
pub mod Validation
pub mod Cases
pub mod Receipts
pub mod Totality
pub mod Passing
pub mod Order
pub mod Coverage
mod Tests
