-- ===== src/Stripe.antt =====
-- src/capabilityproof/stripe_payments.py: hosted checkouts, webhooks, and the reconciliation of
-- orders with the objects that Stripe returns.
pub mod Objects
pub mod Service
pub mod Checks
pub mod Webhooks
pub mod Reconcile
pub mod Retrieval
pub mod Notices
pub mod Process
pub mod Configuration
pub mod Frames
pub mod Framed
pub mod FramedRequests
pub mod Requests
pub mod Settled
pub mod Undisturbed
pub mod Finished
pub mod Replays
mod Examples
