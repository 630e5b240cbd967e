-- ===== src/Access.antt =====
-- src/capabilityproof/commerce_access.py: tenants, the bindings of quotes and orders to them, and the
-- delivery tokens that give access to results.
pub mod Tables
pub mod Tenants
pub mod Bindings
pub mod Tokens
pub mod Evolution
pub mod Commands
pub mod Histories
pub mod Authority
pub mod Lockout
pub mod Capabilities
pub mod Opening
mod Examples
