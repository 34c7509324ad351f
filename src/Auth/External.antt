-- ===== src/Auth/External.antt =====
-- What src/modules/auth takes from packages and services that are not part of the repository: bcrypt,
-- the signer of tokens, the comparison of emails in the database, the mail server; and the values
-- of src/config/configuration.ts.
use vnp_dbms_backend.Common.{
  ℕ, String, ◌≡◌, Bool, true, Option, if◌then◌else◌, Exec, raise, modify, ◌∷◌, bad_request,
}
use vnp_dbms_backend.Auth.Store.{Db, Mail, escape_plus}

-- `JwtPayload` of src/modules/auth/auth.interface.ts
pub record JwtPayload : Type 0 where
  pub sub : String
  pub email : String
  pub role_id : String

pub record External : Type 0 where
  -- `bcrypt.hash`, with the salt that it draws, and `bcrypt.compare`
  pub hash : String → String → String
  pub compare_password : String → String → Bool
  pub compare-hash :
      (salt password : String) → compare_password password (hash salt password) ≡ true
  -- a stored email against a pattern
  pub email_matches : String → String → Bool
  pub email_matches-escape : (email : String) → email_matches email (escape_plus email) ≡ true
  -- whether the mail server takes the mail
  pub delivers : Mail → Bool
  -- `jwtService.sign` and `verify`: payload, secret and lifetime; token and secret
  pub sign : JwtPayload → String → String → String
  pub verify : String → String → Option JwtPayload
  pub otp_expiry_minutes : ℕ
  pub temp_password_expiry_days : ℕ
  pub access_secret : String
  pub refresh_secret : String
  pub access_expires_in : String
  pub refresh_expires_in : String
  pub session_access_expires_in : String
  pub session_refresh_expires_in : String

-- The methods of `EmailUtil`: a mail that the server does not take ends in an exception.
unfoldable pub send : External → Mail → Exec Db Unit
send ext m =
    if ext.delivers m
    then modify (λ db. record db { sent = m ∷ db.sent })
    else raise bad_request "Failed to send email"
