-- ===== src/Models.antt =====
-- The structs and the string constants of the packages, a module for each package.
pub mod Auth
pub mod Ledger
pub mod Wallets
pub mod Transfers
pub mod Idempotency
pub mod Payments
pub mod Errors
pub mod Outbox
pub mod Reconciliation
