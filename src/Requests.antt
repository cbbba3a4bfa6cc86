-- ===== src/Requests.antt =====
-- app/modules/payments/payment_request_service.py: requests to record a payment, and their answers.
pub mod Attempts
pub mod Service
pub mod Effects
mod Tests
pub mod Create
pub mod Created
