-- ===== src/RefundRequests.antt =====
-- app/modules/payments/refund_request_service.py: requests for a refund, and their answers.
pub mod Service
pub mod Effects
pub mod Create
pub mod Created
mod Tests
