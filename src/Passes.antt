-- ===== src/Passes.antt =====
-- app/modules/events/food_pass_service.py: the food pass of a flat, and what it makes the flat owe.
pub mod Service
pub mod Written
pub mod Effects
pub mod Booked
pub mod Tests
