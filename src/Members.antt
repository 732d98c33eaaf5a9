-- ===== src/Members.antt =====
-- The members of a workspace and their roles: app/core/permissions.py and app/core/views/members.py.
pub mod Permissions
pub mod Views
pub mod Acceptance
pub mod Owners
pub mod Removal
pub mod WellFormed
pub mod Keeping
pub mod Invited
pub mod History
pub mod Escalation
