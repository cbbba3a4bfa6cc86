-- ===== src/Finance.antt =====
-- All the services that move money, in one history of calls.
pub mod Billing
pub mod History
pub mod Invariants
pub mod Atomicity
mod Tests
