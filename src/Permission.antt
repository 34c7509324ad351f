-- ===== src/Permission.antt =====
-- Who may do what: the permission types, the helpers, the service and the two guards of
-- src/common (interfaces, utils, services, guards).
pub mod Types
pub mod Util
pub mod Service
pub mod Guard
pub mod Project
pub mod Checks
pub mod Guards
pub mod Actions
pub mod Roles
mod Examples
