-- ===== src/Food.antt =====
-- app/modules/events/food_collection_service.py: the tokens of an event's meals, and the counter at
-- which they are served.
pub mod Codes
pub mod Entry
pub mod Generate
pub mod Counter
pub mod Serve
pub mod Lookup
pub mod Status
pub mod Served
pub mod Serving
pub mod History
pub mod Entitlement
pub mod Plan
pub mod Generated
mod Tests
