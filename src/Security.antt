-- ===== src/Security.antt =====
-- Who may act: the role table and the checks that the services make with it.
pub mod Roles
pub mod Access
pub mod Guarantees
mod Tests
