-- ===== src/Commerce.antt =====
-- src/capabilityproof/commerce.py: the commerce contracts.
pub mod Status
pub mod Request
pub mod Webhook
pub mod WebhookLaws
pub mod Normalised
pub mod Quote
pub mod Examples
