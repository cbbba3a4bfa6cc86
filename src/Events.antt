-- ===== src/Events.antt =====
-- app/modules/events: the life of an event.
pub mod Service
pub mod Changes
pub mod Lifecycle
pub mod Consistency
mod Tests
