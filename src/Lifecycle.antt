-- ===== src/Lifecycle.antt =====
-- src/capabilityproof/lifecycle.py: the root-signed feed of issuer keys and receipts, the store of
-- last-seen sequences, and the state of a receipt.
pub mod Sequence
pub mod SequenceLaws
pub mod SequenceFile
pub mod SequenceRecord
pub mod Feed
pub mod Evaluate
pub mod FeedLaws
pub mod EvaluateLaws
pub mod Examples
pub mod RecordExamples
