-- ===== src/Announcements.antt =====
-- app/modules/announcements/: announcements to the members, and the worker that delivers them.
pub mod Models
pub mod Templates
pub mod Sending
pub mod Worker
pub mod Create
pub mod Machine
pub mod Processed
pub mod Calls
pub mod Fate
pub mod Batches
pub mod Rendered
mod Tests
