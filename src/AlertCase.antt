-- ===== src/AlertCase.antt =====
-- internal/alertcase: the life of a case as a log of events, with its projection, head, idempotency
-- receipts and audit stream.
pub mod Types
pub mod Transition
pub mod Store
pub mod Operations
pub mod Verify
pub mod Lifecycle
pub mod Replay
pub mod Invariant
pub mod Requests
pub mod Alerts
pub mod Reachable
pub mod Retry
pub mod Audit
pub mod Tests
