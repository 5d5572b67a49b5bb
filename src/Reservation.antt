-- ===== src/Reservation.antt =====
-- backend/internal/reservation: requests, holds on ticket stock, and their end.
pub mod Request
pub mod Store
pub mod Transactions
pub mod Create
pub mod Reads
pub mod Keys
pub mod Valid
pub mod Ledger
pub mod Holding
pub mod Sound
pub mod Stock
pub mod Calls
pub mod Creating
pub mod History
pub mod Atomic
pub mod Examples
