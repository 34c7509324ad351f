-- ===== src/Auth/Invitations.antt =====
-- Invitations: acceptance, the wait between two mails, and what a failure leaves behind.
use vnp_dbms_backend.Common.{
  ℕ, ◌+◌, ◌-◌, ◌*◌, ◌≤◌, ◌<◌, String, ◌≡◌, refl, ap, ◌∙◌, ◌≢◌, true, false, none, some, List, map,
  arith, eq_self, ok, eq-false_of_ne,
}
use vnp_dbms_backend.Common.Prisma.{Prisma}
use vnp_dbms_backend.Auth.Store
use vnp_dbms_backend.Auth.Store.{Db, User, invitation_mail, otp_mail}
use vnp_dbms_backend.Auth.External.{External}
use vnp_dbms_backend.Auth.Session.{generate_auth_session}
use vnp_dbms_backend.Auth.Invite.{VerifyInvitation, verify_invitation, in_cooldown, remaining}
use vnp_dbms_backend.Auth.Otp.{by_email}
use vnp_dbms_backend.Auth.Accounts.{OnlyMatch, rewritten, find-rewritten, rewritten-rewritten}

-- A refusal within the wait names between 1 and 300 seconds, split into minutes and seconds below 60,
-- and after that many seconds the wait is over, and a second earlier it is not.
pub remaining_bounds :
    (sent_at now : ℕ)
    → in_cooldown (some sent_at) now ≡ true
    → sent_at ≤ now
    → let (minutes, seconds) = remaining sent_at now in
      let wait = minutes * 60 + seconds in
      (1 ≤ wait)
      × (wait ≤ 300)
      × (seconds < 60)
      × (in_cooldown (some sent_at) (now + wait * 1000) ≡ false)
      × (in_cooldown (some sent_at) (now + (wait - 1) * 1000) ≡ true)
unfolding remaining
remaining_bounds sent_at now h k = ground arith

-- The document of a user who has accepted an invitation.
abbrev pub settled : External → VerifyInvitation → String → User → User
settled ext d salt u = record u {
  password = ext.hash salt d.new_password;
  temp_password = none;
  is_verified = true;
}

module _ (prisma : Prisma) (ext : External) (d : VerifyInvitation) (salt : String) (u : User)
    (db : Db) where
  settled_users : List User
  settled_users = map (rewritten u.id (settled ext d salt)) db.users

  both_updates :
      prisma.update
        (Store.has_user_id u.id)
        (λ x. record x { temp_password = none; is_verified = true })
        (prisma.update
          (Store.has_user_id u.id)
          (λ x. record x { password = ext.hash salt d.new_password })
          db.users)
      ≡ settled_users
  unfolding settled_users
  both_updates =
      prisma.rows_update _ _ _
      ∙ ap (map (rewritten u.id (λ x. record x { temp_password = none; is_verified = true })))
          (prisma.rows_update _ _ _)
      ∙ rewritten-rewritten u.id (λ x. record x { temp_password = none; is_verified = true })
          (λ x. record x { password = ext.hash salt d.new_password }) (λ x. refl) db.users

  find_settled :
      prisma.find_first (by_email ext d.email) db.users ≡ some u
      → OnlyMatch ext.email_matches d.email u db.users
      → prisma.find_first (by_email ext d.email) settled_users ≡ some (settled ext d salt u)
  unfolding settled_users
  find_settled found only =
      find-rewritten prisma ext.email_matches d.email u db.users (settled ext d salt) (λ x. refl)
        only found

  -- A user whose email is found, and nobody else by it, who has a temporary password and gives it,
  -- accepts the invitation: `verifyInvitation` returns the session of that user, whose document then
  -- has the new password, no temporary one, and is verified. Nothing is assumed of the time since the invitation was
  -- sent: the temporary password never expires.
  pub verify_invitation-accepts :
      prisma.find_first (by_email ext d.email) db.users ≡ some u
      → OnlyMatch ext.email_matches d.email u db.users
      → u.temp_password ≡ some d.temp_password
      → d.temp_password ≢ ""
      → (db' : Db) × (verify_invitation prisma ext d salt db
          ≡ (ok (generate_auth_session ext (settled ext d salt u) true), db'))
        × (prisma.find_first (by_email ext d.email) db'.users ≡ some (settled ext d salt u))
  unfolding verify_invitation Store.find_user_by_email Store.update_user_password
      Store.clear_temp_password generate_auth_session settled_users
  verify_invitation-accepts found only temp filled = (
    record db { users = settled_users },
    rw (
      found,
      temp,
      eq-false_of_ne d.temp_password "" filled,
      eq_self d.temp_password,
      both_updates,
      find_settled found only,
    ),
    find_settled found only,
  )
