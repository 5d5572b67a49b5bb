-- ===== src/Payment.antt =====
-- backend/internal/payment: tickets of a paid order, the expiry of unpaid orders, payments in a
-- simulation and through Midtrans.
pub mod Status
pub mod Tickets
pub mod Expiry
pub mod Expiring
pub mod History
pub mod Simulate
pub mod Gateway
pub mod Settled
pub mod Examples
pub mod Untouched
pub mod Backed
pub mod Reports
pub mod Settling
pub mod Snap
pub mod Reconcile
