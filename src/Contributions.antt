-- ===== src/Contributions.antt =====
-- app/modules/contributions/: what sponsors and donors give to an event, and what they get back.
pub mod Service
pub mod Refund
pub mod Effects
pub mod Codes
pub mod Tests
