-- ===== src/Tests.antt =====
-- The theorems at concrete inputs, and runs of the definitions.
pub mod Fixtures
pub mod Files
pub mod Api
pub mod Rules
pub mod Returns
pub mod Nacha
pub mod Programs
pub mod Health
pub mod Invariant
pub mod Runs
pub mod Services
pub mod Workflow
