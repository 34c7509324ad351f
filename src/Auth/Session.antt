-- ===== src/Auth/Session.antt =====
-- Tokens and sessions of src/modules/auth/auth.service.ts.
use vnp_dbms_backend.Common.{
  String, Bool, true, none, some, if◌then◌else◌, Exec, raise, ◌>>=◌, unauthorized, pure, or_raise,
}
use vnp_dbms_backend.Common.Prisma.{Prisma}
use vnp_dbms_backend.Auth.Store
use vnp_dbms_backend.Auth.Store.{Db, User}
use vnp_dbms_backend.Auth.External.{External, JwtPayload}

pub record AuthTokens : Type 0 where
  pub access_token : String
  pub refresh_token : String

-- `AuthSessionResult`. Of the user in the response the joined roles are left out.
pub record AuthSession : Type 0 where
  pub tokens : AuthTokens
  pub user_id : String
  pub email : String
  pub first_name : String
  pub last_name : String

abbrev pub payload_of : User → JwtPayload
payload_of u = record { sub = u.id; email = u.email; role_id = u.user_role_id }

unfoldable pub sign_auth_tokens : External → JwtPayload → Bool → AuthTokens
sign_auth_tokens ext payload keep_sign_in = record {
  access_token =
      ext.sign payload ext.access_secret
        (if keep_sign_in then ext.access_expires_in else ext.session_access_expires_in);
  refresh_token =
      ext.sign payload ext.refresh_secret
        (if keep_sign_in then ext.refresh_expires_in else ext.session_refresh_expires_in);
}

unfoldable pub generate_auth_session : External → User → Bool → AuthSession
unfolding sign_auth_tokens
generate_auth_session ext u keep_sign_in = record {
  tokens = sign_auth_tokens ext (payload_of u) keep_sign_in;
  user_id = u.id;
  email = u.email;
  first_name = u.first_name;
  last_name = u.last_name;
}

-- `refreshAccessToken`: whatever is thrown inside the `try` ends in the same exception.
unfoldable pub refresh_access_token : Prisma → External → String → Exec Db AuthTokens
refresh_access_token prisma ext token = elim (ext.verify token ext.refresh_secret) [
  | none ↦ raise unauthorized "Invalid or expired refresh token"
  | some payload ↦ do
    user ← Store.find_user_by_email prisma ext.email_matches payload.email
    u ← or_raise user unauthorized "Invalid or expired refresh token"
    pure (sign_auth_tokens ext (payload_of u) true)
]
