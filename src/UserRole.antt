-- ===== src/UserRole.antt =====
-- The roles of users: src/modules/user-role.
pub mod Service
pub mod Assigned
mod Examples
