-- ===== src/Decision.antt =====
-- internal/policyengine: the decision on a classified transaction under a policy and a tenant's overlay.
pub mod Types
pub mod Evaluate
pub mod Decide
pub mod Validate
pub mod Overlay
pub mod Summary
pub mod Entries
pub mod Counted
pub mod Gates
pub mod Tests
