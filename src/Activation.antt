-- ===== src/Activation.antt =====
-- The activation of catalog, projection and policy of internal/scoringactivation.
pub mod Types
pub mod Validate
pub mod Manager
pub mod Good
pub mod Paths
pub mod Fresh
pub mod Crash
pub mod Before
pub mod Atomic
pub mod Back
pub mod Promote
pub mod Example
mod Tests
