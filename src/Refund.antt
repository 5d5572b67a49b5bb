-- ===== src/Refund.antt =====
-- backend/internal/refund: money given back for an order, by Midtrans or by hand.
pub mod Provider
pub mod Finish
pub mod Submit
pub mod Queue
pub mod Manual
pub mod Lifecycle
pub mod Rows
pub mod Finishing
pub mod Releasing
pub mod Claiming
pub mod Passes
pub mod Asking
pub mod Requests
pub mod Submitting
pub mod Completing
pub mod Confirming
pub mod Examples
