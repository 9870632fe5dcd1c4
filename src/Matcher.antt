-- ===== src/Matcher.antt =====
-- internal/matcherbaseline: the deterministic name matcher.
pub mod Table
pub mod Edit
pub mod Script
pub mod Similarity
pub mod Phonetic
pub mod Tokens
pub mod Ordered
pub mod Vocabulary
pub mod Fold
pub mod Bidi
pub mod Soundex
pub mod Profile
pub mod Score
pub mod Find
pub mod Range
pub mod Bounds
mod Tests
pub mod Candidates
pub mod Provider
pub mod Search
pub mod Found
pub mod Results
