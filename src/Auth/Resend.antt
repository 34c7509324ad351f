-- ===== src/Auth/Resend.antt =====
-- The mails of an invitation, and what follows its acceptance or its failure.
use vnp_dbms_backend.Common.{
  ℕ, ◌+◌, ◌<◌, String, ◌≡◌, refl, ap, ◌∙◌, ◌≢◌, true, false, Option, some, ◌∷◌, map, arith, str_eq,
  ok, err, error, bad_request, eq-false_of_ne, ltb,
}
use vnp_dbms_backend.Common.Prisma.{Prisma}
use vnp_dbms_backend.Permission.Types.{UserRole}
use vnp_dbms_backend.Auth.Store
use vnp_dbms_backend.Auth.Store.{Db, User, invitation_mail, otp_mail}
use vnp_dbms_backend.Auth.External.{External, send}
use vnp_dbms_backend.Auth.Session.{generate_auth_session}
use vnp_dbms_backend.Auth.Login.{request_login_otp}
use vnp_dbms_backend.Auth.Invite.{
  VerifyInvitation, verify_invitation, resend_invitation, Fresh, may_invite, nothing_pending,
  in_cooldown, valid_for_days,
}
use vnp_dbms_backend.Auth.Otp.{by_email}
use vnp_dbms_backend.Auth.Accounts.{OnlyMatch, rewritten, find-rewritten, rewritten-rewritten}
use vnp_dbms_backend.Auth.SignIn.{with_otp}
use vnp_dbms_backend.Auth.Invitations.{settled, verify_invitation-accepts}

module _ (prisma : Prisma) (ext : External) (d : VerifyInvitation) (salt : String) (u : User)
    (db : Db) where
  -- A user who holds an invitation cannot ask for a one-time password to sign in, whatever the
  -- password; after `verifyInvitation` has accepted the temporary one the new password
  -- opens `requestLoginOtp`, if the mail server takes the mail.
  pub verify_invitation-opens_login :
      (password otp_id otp : String) (now : ℕ)
      → prisma.find_first (by_email ext d.email) db.users ≡ some u
      → OnlyMatch ext.email_matches d.email u db.users
      → u.temp_password ≡ some d.temp_password
      → d.temp_password ≢ ""
      → ext.delivers (otp_mail d.email otp) ≡ true
      → (db' db'' : Db) × (request_login_otp prisma ext d.email password otp_id otp now db
          ≡ (err (error bad_request "Please complete your invitation verification first"), db))
        × (verify_invitation prisma ext d salt db
            ≡ (ok (generate_auth_session ext (settled ext d salt u) true), db'))
        × (request_login_otp prisma ext d.email d.new_password otp_id otp now db'
            ≡ (ok "OTP sent to your email", db''))
  unfolding request_login_otp Store.find_user_by_email Store.create_otp send
  verify_invitation-opens_login password otp_id otp now found only temp filled taken =
      let (db', accepts, found') =
        verify_invitation-accepts prisma ext d salt u db found only temp filled in
      (
        db',
        with_otp prisma ext (settled ext d salt u) otp_id otp now (otp_mail d.email otp) db',
        rw (found, temp, eq-false_of_ne d.temp_password "" filled),
        accepts,
        rw (found', ext.compare-hash salt d.new_password, taken, prisma.rows_create),
      )

-- The document of a user whose invitation is renewed, and the database after that.
abbrev pub renewed : External → Fresh → ℕ → User → User
renewed ext new now x = record x {
  password = ext.hash new.salt new.temp_password;
  temp_password = some new.temp_password;
  invitation_sent_at = some now;
}

abbrev pub renewed_db : External → Fresh → ℕ → User → UserRole → Db → Db
renewed_db ext new now u r db = record db {
  users = map (rewritten u.id (renewed ext new now)) db.users;
  sent = invitation_mail u.email new.temp_password r.name u.first_name r.is_external ∷ db.sent;
}

module _ (prisma : Prisma) (ext : External) (email : String) (level : Option String) (new : Fresh)
    (now : ℕ) (u : User) (r : UserRole) (db : Db) where
  renewed-users :
      prisma.update
        (Store.has_user_id u.id)
        (λ x. record x { temp_password = some new.temp_password; invitation_sent_at = some now })
        (prisma.update
          (Store.has_user_id u.id)
          (λ x. record x { password = ext.hash new.salt new.temp_password })
          db.users)
      ≡ map (rewritten u.id (renewed ext new now)) db.users
  renewed-users =
      prisma.rows_update _ _ _
      ∙ ap
          (map (
            rewritten u.id (λ x. record x {
              temp_password = some new.temp_password;
              invitation_sent_at = some now;
            })))
          (prisma.rows_update _ _ _)
      ∙ rewritten-rewritten u.id
          (λ x. record x { temp_password = some new.temp_password; invitation_sent_at = some now })
          (λ x. record x { password = ext.hash new.salt new.temp_password }) (λ x. refl) db.users

  -- For a caller who may invite, and the one user that the email finds, whose invitation is pending and out of
  -- the wait and whose role exists, `resendInvitation` renews the temporary password and mails it,
  -- if the mail server takes it; a second call within five minutes of that is refused and
  -- changes nothing.
  pub resend_invitation-waits :
      (next : Fresh) (later : ℕ)
      → may_invite level ≡ true
      → prisma.find_first (by_email ext email) db.users ≡ some u
      → OnlyMatch ext.email_matches email u db.users
      → nothing_pending u ≡ false
      → in_cooldown u.invitation_sent_at now ≡ false
      → prisma.find_first (λ x. str_eq x.id u.user_role_id) db.user_roles ≡ some r
      → ext.delivers (invitation_mail u.email new.temp_password r.name u.first_name r.is_external)
        ≡ true
      → new.temp_password ≢ ""
      → later < now + 300000
      → (resend_invitation prisma ext email level new now db
          ≡ (ok (valid_for_days ext.temp_password_expiry_days), renewed_db ext new now u r db))
        × (prisma.find_first (by_email ext email) (renewed_db ext new now u r db).users
            ≡ some (renewed ext new now u))
        × (resend_invitation prisma ext email level next later (renewed_db ext new now u r db) ≡ (
          err (error bad_request "Please wait before resending the invitation."),
          renewed_db ext new now u r db,
        ))
  unfolding resend_invitation Store.find_user_by_email Store.update_user_password
      Store.renew_temp_password Store.find_role send
  resend_invitation-waits next later may found only pending due known taken filled soon =
      let found' : prisma.find_first (by_email ext email) (renewed_db ext new now u r db).users
          ≡ some (renewed ext new now u) =
        find-rewritten prisma ext.email_matches email u db.users (renewed ext new now) (λ x. refl)
          only found in
      let unverified : u.is_verified ≡ false = ground arith in
      let early : ltb later (now + 300000) ≡ true = ground arith in
      (
        rw (may, found, pending, due, renewed-users, known, taken),
        found',
        rw (may, found', eq-false_of_ne new.temp_password "" filled, unverified, early),
      )
