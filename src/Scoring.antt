-- ===== src/Scoring.antt =====
-- internal/candidatescoring: integer scoring of retrieved candidates under one policy.
pub mod Types
pub mod Normalize
pub mod Match
pub mod Policy
pub mod Candidate
pub mod Engine
pub mod Bounds
pub mod Evidence
pub mod Order
pub mod Loop
pub mod Response
pub mod Matching
pub mod Loading
mod Tests
