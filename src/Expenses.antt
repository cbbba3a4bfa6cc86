-- ===== src/Expenses.antt =====
-- app/modules/expenses/expense_service.py: what an event has spent.
pub mod Service
pub mod Effects
