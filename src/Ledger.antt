-- ===== src/Ledger.antt =====
-- app/modules/ledger/ledger_service.py: the closing balance of an event.
pub mod Service
pub mod Effects
pub mod Moves
pub mod Closing
pub mod Account
mod Tests
