-- ===== src/Paid.antt =====
-- src/capabilityproof/paid_lifecycle.py: the publication of root-signed feeds about delivered receipts.
pub mod Transitions
pub mod Publish
pub mod Schema
pub mod Chain
pub mod Invalidation
pub mod History
pub mod Examples
