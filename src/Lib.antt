-- ===== src/Lib.antt =====
-- Watchlist platform: a model of the core of the Go services of this repository.
--
-- Base: strings as lists of code points, 64-bit integers with wrap-around, the result monad,
-- sorting and sets of strings. Unicode tables, encoding/json and crypto/sha256 are parameters.
--
-- Scoring (internal/candidatescoring): Types holds the records of types.go; Normalize is
-- normalize.go; Match has identifierMatch, bestNameMatch, dateMatch and setMatch; Policy is
-- policy.go and NewEngine; Candidate is scoreCandidate; Engine is Score and ScoreBatch. The proofs
-- are in Bounds, Evidence, Order, Loop, Response, Matching and Loading, and concrete runs in
-- Tests.
--
-- AlertCase (internal/alertcase): Types holds the case records; Transition is applyTransition, one
-- clause of dispatch for each action; Store is the directory of files with receipts and the audit
-- stream; Operations are CreateCase and ApplyCaseEvent, one step under the lock, and Alerts is
-- CreateAlert, for any alert or error that BuildAlert returns; Verify is VerifyCase and
-- VerifyAudit. Lifecycle is about one transition; Replay, Invariant, Requests and Reachable are
-- about runs of operations from a store without cases, Retry about a request after another, Audit
-- about the audit stream; Tests has concrete runs. A write to a file is taken to succeed.
-- Sequences and revisions are uint64; where the reachability of a store matters, each event has a
-- sequence number left below 2 ^ 64.
--
-- Decision (internal/policyengine): Types holds the records; Evaluate scores a classification and
-- applies the rules; Decide has the gates and Engine.evaluate; Validate has ValidatePolicy and
-- ApplyOverlay, Overlay has ValidateOverlay and NewEngine with their proofs; Summary has
-- summarize, and Entries and Counted what it counts; Gates has the proofs about decisions, Tests
-- the runs. A map is the list of its entries; patterns with one code keep their order in
-- sort.Slice.
--
-- Matcher (internal/matcherbaseline): Table is the filling of a table row by row; Edit, Tokens and
-- Phonetic are similarity.go, Fold is normalize.go with the word lists in Vocabulary, Profile is
-- profile.go, Score is scoreName and ScorePair. Candidates and Provider are provider.go after the
-- exact search, which is a parameter. Script, Similarity, Ordered, Bidi, Soundex, Find, Bounds,
-- Range, Search, Found and Results have the proofs. Strings are valid UTF-8; the categories of
-- Go's unicode tables are parameters.
--
-- Package (internal/mmapcatalogcontract): Bytes has the little-endian numbers and slices; Metadata
-- is encodeMetadata and decodeMetadataSection, Reader is ReadNormalizationProfile, with a panic as
-- an outcome; Types, Normalize, Compile and Artifact are Compile of format.go after the parsing of
-- its input. RoundTrip, Panics, Wrap, Compiled and ReadBack have the proofs. `make([]string, 0,
-- count)` is taken to find its memory.
--
-- Activation (internal/scoringactivation): Types has the documents, the files of the state
-- directory and the changes of a file; Validate has the validation of manager.go and
-- LoadCatalogDescriptor of internal/projectionpackage; Manager is the rest of manager.go, and
-- LoadActivation and PromoteExisting of phase8f_promotion.go. An operation returns its changes in
-- order, so that a crash is a prefix of them. Good, Paths, Fresh, Crash, Before, Atomic, Back and
-- Promote have the proofs, Example a world in which the laws of path/filepath and of the encoders
-- hold. LoadPackage and LoadPolicy read immutable content and are functions of which nothing is
-- assumed. PromoteExisting writes an active document with resolved paths, so the active document
-- of a settled state need not be byte-equal to the stored one.
--
-- The binary search of Profile runs on fuel, the length of the list, which is enough since a round
-- halves what is left; every other loop is structural recursion. Not modelled: files but those of
-- Activation, HTTP, SQL, JSON and YAML decoding, and the other packages of internal.
pub mod Activation
pub mod AlertCase
pub mod Base
pub mod Decision
pub mod Matcher
pub mod Package
pub mod Scoring
