-- ===== src/Auth/SignIn.antt =====
-- What a one-time password opens: the way from a request to a session.
use vnp_dbms_backend.Common.{
  ℕ, ◌≤◌, String, ◌≡◌, refl, inr, true, false, none, some, [], ◌∷◌, ◌++◌, In, here, In-append,
  str_eq, ok, get_or,
}
use vnp_dbms_backend.Common.Prisma.{Prisma}
use vnp_dbms_backend.Permission.Service.{given}
use vnp_dbms_backend.Auth.Store
use vnp_dbms_backend.Auth.Store.{Db, User, Otp, is_valid_otp, otp_mail, reset_mail, Mail}
use vnp_dbms_backend.Auth.External.{External, send}
use vnp_dbms_backend.Auth.Session.{generate_auth_session}
use vnp_dbms_backend.Auth.Login.{
  VerifyLoginOtp, verify_login_otp, request_login_otp, request_password_reset, expiry,
  reset_message,
}
use vnp_dbms_backend.Auth.Accounts.{find_first-total}
use vnp_dbms_backend.Auth.Otp.{IsValidOtp, IsValidOtp-valid, by_email}

module _ (prisma : Prisma) (ext : External) (d : VerifyLoginOtp) (now : ℕ) where
  -- A session of a user with the same email as `u`.
  abbrev pub SignsIn : User → Db → Type 0
  SignsIn u db =
      (v : User) × (db' : Db) × (verify_login_otp prisma ext d now db
        ≡ (ok (generate_auth_session ext v (get_or d.keep_sign_in true)), db'))
      × In v db.users
      × (ext.email_matches v.email (Store.escape_plus u.email) ≡ true)

  -- Any valid one-time password in the table is enough for `verifyLoginOtp` to return.
  pub valid-SignsIn :
      (u : User) (o : Otp) (db : Db)
      → prisma.find_first (by_email ext d.email) db.users ≡ some u
      → In o db.otps
      → IsValidOtp u.id d.otp now o
      → SignsIn u db
  unfolding verify_login_otp Store.find_user_by_email Store.find_valid_otp Store.mark_otp_as_used
  valid-SignsIn u o db found o_in v =
      let (u_in, _) = prisma.found_in (by_email ext d.email) db.users found in
      let (x, found_otp, _, _) =
        find_first-total prisma (is_valid_otp u.id d.otp now) db.otps o_in
          (IsValidOtp-valid u.id d.otp now o v) in
      let (w, found_again, w_in, w_hit) =
        find_first-total prisma (by_email ext u.email) db.users u_in
          (ext.email_matches-escape u.email) in
      (
        w,
        record db {
          otps = prisma.update (λ y. str_eq y.id x.id) (λ y. record y { is_used = true }) db.otps;
        },
        rw (found, found_otp, found_again),
        w_in,
        w_hit,
      )

-- The database after a one-time password has been created and mailed.
abbrev pub with_otp : Prisma → External → User → (otp_id otp : String) → ℕ → Mail → Db → Db
with_otp prisma ext u otp_id otp now mail db = record db {
  otps =
      db.otps
      ++ record {
        id = otp_id;
        user_id = u.id;
        otp_code = otp;
        expires_at = expiry ext now;
        is_used = false;
      }
        ∷ [];
  sent = mail ∷ db.sent;
}

module _ (prisma : Prisma) (ext : External) (d : VerifyLoginOtp) (u : User) (otp_id : String)
    (now later : ℕ) (db : Db) where
  with_otp-SignsIn :
      (mail : Mail)
      → prisma.find_first (by_email ext d.email) db.users ≡ some u
      → later ≤ expiry ext now
      → SignsIn prisma ext d later u (with_otp prisma ext u otp_id d.otp now mail db)
  with_otp-SignsIn mail found in_time =
      valid-SignsIn prisma ext d later u
        (record {
          id = otp_id;
          user_id = u.id;
          otp_code = d.otp;
          expires_at = expiry ext now;
          is_used = false;
        })
        (with_otp prisma ext u otp_id d.otp now mail db) found ((In-append db.otps _).1 (inr here))
        (record { owner = refl; code = refl; unused = refl; in_time = in_time })

  -- The way in: a user whose email is found, who has no temporary password left and gives the right
  -- password is mailed a one-time password, if the mail server takes the mail; until that
  -- expires `verifyLoginOtp` answers it with a session of a user with that email.
  pub login-SignsIn :
      (password : String)
      → prisma.find_first (by_email ext d.email) db.users ≡ some u
      → given u.temp_password ≡ none
      → ext.compare_password password u.password ≡ true
      → ext.delivers (otp_mail d.email d.otp) ≡ true
      → later ≤ expiry ext now
      → (db' : Db) × (request_login_otp prisma ext d.email password otp_id d.otp now db
          ≡ (ok "OTP sent to your email", db'))
        × SignsIn prisma ext d later u db'
  unfolding request_login_otp Store.find_user_by_email Store.create_otp send
  login-SignsIn password found no_temp right taken in_time = (
    with_otp prisma ext u otp_id d.otp now (otp_mail d.email d.otp) db,
    rw (found, no_temp, right, taken, prisma.rows_create),
    with_otp-SignsIn (otp_mail d.email d.otp) found in_time,
  )

  -- The one-time password of a password reset signs in as well, within its time, with no password and
  -- whether or not the user still has to accept an invitation: nothing is assumed of the
  -- user but that the email finds them. (`verifyLoginOtp` does not look at the purpose.)
  pub reset-SignsIn :
      prisma.find_first (by_email ext d.email) db.users ≡ some u
      → ext.delivers (reset_mail d.email d.otp) ≡ true
      → later ≤ expiry ext now
      → (db' : Db) × (request_password_reset prisma ext d.email otp_id d.otp now db
          ≡ (ok reset_message, db'))
        × SignsIn prisma ext d later u db'
  unfolding request_password_reset Store.find_user_by_email Store.create_otp send
  reset-SignsIn found taken in_time = (
    with_otp prisma ext u otp_id d.otp now (reset_mail d.email d.otp) db,
    rw (found, taken, prisma.rows_create),
    with_otp-SignsIn (reset_mail d.email d.otp) found in_time,
  )
