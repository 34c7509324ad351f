-- ===== src/Auth.antt =====
-- Accounts and sign-in: src/modules/auth.
pub mod Store
pub mod External
pub mod Session
pub mod Login
pub mod Invite
pub mod Admin
pub mod Accounts
pub mod Otp
pub mod OneUse
pub mod SignIn
pub mod Credentials
pub mod Invitations
pub mod Resend
pub mod SuperAdmin
pub mod Reset
mod Examples
