-- ===== src/ProjectRole.antt =====
-- Roles of users in projects: src/modules/user-project-role.
pub mod Store
pub mod Service
pub mod Access
pub mod Assign
pub mod Writes
pub mod Ids
pub mod Keys
mod Examples
