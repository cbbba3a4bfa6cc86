-- ===== src/Committee.antt =====
-- app/modules/committee/committee_member_service.py: who is on the committee of a society.
pub mod Service
pub mod Steps
pub mod Changes
pub mod Chairman
pub mod Authority
mod Tests
