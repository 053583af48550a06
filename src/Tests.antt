-- ===== src/Tests.antt =====
-- The theorems at concrete values.
pub mod Holder
pub mod Prepaid
pub mod Access
pub mod Bodies
pub mod Gateways
pub mod Models
pub mod Amounts
pub mod Receipts
pub mod Routes
pub mod Claims
pub mod Reconciled
pub mod Schemas
