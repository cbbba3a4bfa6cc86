-- ===== src/Payments.antt =====
-- app/modules/payments: payments of flats and their refunds.
pub mod Record
pub mod Recorded
pub mod Effects
pub mod Authority
pub mod Tests
pub mod Refund
pub mod Refunded
pub mod Retries
pub mod Committed
pub mod Solvency
pub mod Invariant
