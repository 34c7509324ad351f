-- ===== src/Invitation.antt =====
-- Invitations by a token: src/modules/user-invitation.
pub mod Store
pub mod Service
pub mod Granted
pub mod Accept
pub mod Roles
pub mod Once
pub mod Keys
pub mod Runs
pub mod Answered
mod Examples
