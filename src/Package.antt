-- ===== src/Package.antt =====
-- The compiled catalog package of internal/mmapcatalogcontract.
pub mod Bytes
pub mod Metadata
pub mod Reader
pub mod RoundTrip
pub mod Panics
pub mod Wrap
pub mod Normalize
pub mod Types
pub mod Compile
pub mod Artifact
pub mod Compiled
pub mod ReadBack
mod Tests
