-- ===== src/Auth/Reset.antt =====
-- The reset of a password, and the refresh of the tokens.
use vnp_dbms_backend.Common.{
  ℕ, String, ◌≡◌, refl, inl, inr, ◌⊎◌, true, none, some, map, Option-cases, In, str_eq, ok, err,
  error, bad_request, unauthorized,
}
use vnp_dbms_backend.Common.Prisma.{Prisma}
use vnp_dbms_backend.Permission.Service.{given}
use vnp_dbms_backend.Auth.Store
use vnp_dbms_backend.Auth.Store.{Db, User, Otp, is_valid_otp, otp_mail}
use vnp_dbms_backend.Auth.External.{External, JwtPayload, send}
use vnp_dbms_backend.Auth.Session.{sign_auth_tokens, payload_of, refresh_access_token}
use vnp_dbms_backend.Auth.Login.{ResetPassword, reset_password, request_login_otp}
use vnp_dbms_backend.Auth.Otp.{IsValidOtp, valid-IsValidOtp, IsValidOtp-valid, by_email, used}
use vnp_dbms_backend.Auth.Accounts.{OnlyMatch, rewritten, find-rewritten, find_first-total}
use vnp_dbms_backend.Auth.OneUse.{OneOtp, none_left}
use vnp_dbms_backend.Auth.SignIn.{with_otp}

module _ (prisma : Prisma) (ext : External) (d : ResetPassword) (salt : String) (now : ℕ) (u : User)
    (o : Otp) (db : Db) where
  abbrev pub reset : User → User
  reset x = record x { password = ext.hash salt d.new_password }

  -- Where the email finds one user only, and the table holds a valid one-time password of that user, the only
  -- unused one with its code: `resetPassword` returns; the new password, and no temporary one
  -- being left, opens `requestLoginOtp` if the mail server takes the mail; and a second
  -- `resetPassword` with that one-time password is refused at any time and changes nothing.
  pub reset_password-opens_login :
      (otp_id otp : String) (at later : ℕ) (salt' : String)
      → prisma.find_first (by_email ext d.email) db.users ≡ some u
      → OnlyMatch ext.email_matches d.email u db.users
      → In o db.otps
      → IsValidOtp u.id d.otp now o
      → OneOtp u.id d.otp db.otps
      → given u.temp_password ≡ none
      → ext.delivers (otp_mail d.email otp) ≡ true
      → (db' db'' : Db) × (reset_password prisma ext d salt now db
          ≡ (ok "Password reset successfully", db'))
        × (request_login_otp prisma ext d.email d.new_password otp_id otp at db'
            ≡ (ok "OTP sent to your email", db''))
        × (reset_password prisma ext d salt' later db'
            ≡ (err (error bad_request "Invalid or expired OTP"), db'))
  unfolding reset_password request_login_otp Store.find_user_by_email Store.find_valid_otp
      Store.mark_otp_as_used Store.update_user_password Store.create_otp send
  reset_password-opens_login otp_id otp at later salt' found only o_in v one settled taken =
      let (x, found_otp, x_in, x_hit) =
        find_first-total prisma (is_valid_otp u.id d.otp now) db.otps o_in
          (IsValidOtp-valid u.id d.otp now o v) in
      let found' : prisma.find_first (by_email ext d.email) (map (rewritten u.id reset) db.users)
          ≡ some (reset u) =
        find-rewritten prisma ext.email_matches d.email u db.users reset (λ y. refl) only found in
      let no_otp : prisma.find_first (is_valid_otp u.id d.otp later) (used x.id db.otps) ≡ none =
        none_left prisma u.id d.otp now later db.otps x x_in
          (valid-IsValidOtp u.id d.otp now x x_hit) one in
      let db' : Db = record db {
        users = map (rewritten u.id reset) db.users;
        otps = used x.id db.otps;
      } in
      (
        db',
        with_otp prisma ext (reset u) otp_id otp at (otp_mail d.email otp) db',
        rw (
          found,
          found_otp,
          prisma.rows_update (λ (y : Otp). str_eq y.id x.id),
          prisma.rows_update (Store.has_user_id u.id),
        ),
        rw (found', settled, ext.compare-hash salt d.new_password, taken, prisma.rows_create),
        rw (found', no_otp),
      )

-- `refreshAccessToken` changes nothing. It returns new tokens for a user of the table whose email meets
-- the one that the token names, if the token verifies with the secret of refresh tokens and
-- there is such a user; in every other case it throws the same exception.
pub refresh_access_token-cases :
    (prisma : Prisma) (ext : External) (token : String) (db : Db)
    → ((refresh_access_token prisma ext token db
          ≡ (err (error unauthorized "Invalid or expired refresh token"), db))
        × ((ext.verify token ext.refresh_secret ≡ none)
            ⊎ ((p : JwtPayload) × (ext.verify token ext.refresh_secret ≡ some p)
                × (prisma.find_first (by_email ext p.email) db.users ≡ none))))
      ⊎ ((p : JwtPayload) × (u : User) × (ext.verify token ext.refresh_secret ≡ some p)
          × In u db.users
          × (by_email ext p.email u ≡ true)
          × (refresh_access_token prisma ext token db
              ≡ (ok (sign_auth_tokens ext (payload_of u) true), db)))
unfolding refresh_access_token Store.find_user_by_email
refresh_access_token-cases prisma ext token db =
    elim (Option-cases (ext.verify token ext.refresh_secret)) [
      | inl e ↦ inl (rw (e, refresh_access_token), inl e)
      | inr (p, e) ↦ elim (Option-cases (prisma.find_first (by_email ext p.email) db.users)) [
        | inl lost ↦ inl (rw (e, refresh_access_token, lost), inr (p, e, lost))
        | inr (u, found) ↦
            let (at, hit) = prisma.found_in (by_email ext p.email) db.users found in
            inr (p, u, e, at, hit, rw (e, refresh_access_token, found))
      ]
    ]
