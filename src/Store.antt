-- ===== src/Store.antt =====
-- src/capabilityproof/commerce_store.py: the order and event ledger, method by method.
pub mod Tables
pub mod Views
pub mod Ledger
pub mod Invariant
pub mod Quotes
pub mod Orders
pub mod Events
pub mod EventBounds
pub mod Reconcile
pub mod Delivery
pub mod Costs
pub mod PaymentFacts
pub mod Payments
pub mod Updates
pub mod Operations
pub mod Fulfilment
pub mod Commands
pub mod Settling
pub mod Termination
pub mod EventTable
pub mod EventKeys
pub mod Histories
pub mod Books
pub mod Sample
pub mod Examples
