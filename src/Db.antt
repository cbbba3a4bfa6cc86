-- ===== src/Db.antt =====
-- The rows of `app/db/models.py`, the tables that hold them, and the session through which the
-- services read and write them.
mod Models
pub mod Errors
pub mod Session
pub mod Atomic
pub mod Steps
pub mod Query
pub mod Ran
pub mod Keeps
pub use Models.*
