-- ===== src/Auth/Login.antt =====
-- Sign-in and the reset of a password by one-time passwords, in src/modules/auth/auth.service.ts.
use vnp_dbms_backend.Common.{
  ℕ, ◌+◌, ◌*◌, String, Bool, true, not, Option, none, some, is_some, Exec, raise, ◌>>=◌, ◌>>◌,
  bad_request, pure, or_raise, when, get_or,
}
use vnp_dbms_backend.Common.Prisma.{Prisma}
use vnp_dbms_backend.Permission.Service.{given}
use vnp_dbms_backend.Auth.Store
use vnp_dbms_backend.Auth.Store.{Db, User, Otp, Mail, otp_mail, reset_mail}
use vnp_dbms_backend.Auth.External.{External, send}
use vnp_dbms_backend.Auth.Session.{AuthSession, generate_auth_session}

-- `Date.now() + expiryMinutes * 60 * 1000`
abbrev pub expiry : External → ℕ → ℕ
expiry ext now = now + ext.otp_expiry_minutes * 60 * 1000

-- `VerifyLoginOtpDto`; `keep_sign_in !== false` holds if it is missing.
pub record VerifyLoginOtp : Type 0 where
  pub email : String
  pub otp : String
  pub keep_sign_in : Option Bool

pub record ResetPassword : Type 0 where
  pub email : String
  pub otp : String
  pub new_password : String

abbrev pub reset_message : String
reset_message = "If the email exists, an OTP has been sent"

module _ (prisma : Prisma) (ext : External) where
  -- `otp_id` is the id of the new document, and `otp` the text that `generateOtp` gives.
  unfoldable pub request_login_otp : (email password otp_id otp : String) (now : ℕ) → Exec Db String
  request_login_otp email password otp_id otp now = do
    found ← Store.find_user_by_email prisma ext.email_matches email
    u ← or_raise found bad_request "Invalid credentials"
    when (is_some (given u.temp_password))
        (raise bad_request "Please complete your invitation verification first")
    when (not (ext.compare_password password u.password)) (raise bad_request "Invalid credentials")
    Store.create_otp prisma otp_id u.id otp (expiry ext now)
    send ext (otp_mail email otp)
    pure "OTP sent to your email"

  unfoldable pub verify_login_otp : VerifyLoginOtp → (now : ℕ) → Exec Db AuthSession
  verify_login_otp d now = do
    found ← Store.find_user_by_email prisma ext.email_matches d.email
    u ← or_raise found bad_request "Invalid credentials"
    valid ← Store.find_valid_otp prisma u.id d.otp now
    o ← or_raise valid bad_request "Invalid or expired OTP"
    Store.mark_otp_as_used prisma o.id
    again ← Store.find_user_by_email prisma ext.email_matches u.email
    v ← or_raise again bad_request "User not found"
    pure (generate_auth_session ext v (get_or d.keep_sign_in true))

  abbrev request_reset_of : Option User → (email otp_id otp : String) (now : ℕ) → Exec Db String
  request_reset_of none email otp_id otp now = pure reset_message
  request_reset_of (some u) email otp_id otp now = do
    Store.create_otp prisma otp_id u.id otp (expiry ext now)
    send ext (reset_mail email otp)
    pure reset_message

  unfoldable pub request_password_reset : (email otp_id otp : String) (now : ℕ) → Exec Db String
  request_password_reset email otp_id otp now = do
    found ← Store.find_user_by_email prisma ext.email_matches email
    request_reset_of found email otp_id otp now

  -- `salt` is what bcrypt draws.
  unfoldable pub reset_password : ResetPassword → (salt : String) (now : ℕ) → Exec Db String
  reset_password d salt now = do
    found ← Store.find_user_by_email prisma ext.email_matches d.email
    u ← or_raise found bad_request "Invalid credentials"
    valid ← Store.find_valid_otp prisma u.id d.otp now
    o ← or_raise valid bad_request "Invalid or expired OTP"
    Store.mark_otp_as_used prisma o.id
    Store.update_user_password prisma u.id (ext.hash salt d.new_password)
    pure "Password reset successfully"
