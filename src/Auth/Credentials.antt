-- ===== src/Auth/Credentials.antt =====
-- When a one-time password is created, and what the answers reveal.
use vnp_dbms_backend.Common.{
  ℕ, String, ◌≡◌, inl, inr, ◌⊎◌, true, false, none, some, [], ◌∷◌, ◌++◌, Option-cases, Bool-cases,
  ok, err, error, bad_request, is_some,
}
use vnp_dbms_backend.Common.Prisma.{Prisma}
use vnp_dbms_backend.Permission.Service.{given}
use vnp_dbms_backend.Auth.Store
use vnp_dbms_backend.Auth.Store.{Db, User, otp_mail, reset_mail}
use vnp_dbms_backend.Auth.External.{External, send}
use vnp_dbms_backend.Auth.Login.{request_login_otp, request_password_reset, expiry, reset_message}
use vnp_dbms_backend.Auth.Otp.{by_email}

module _ (prisma : Prisma) (ext : External) (email password otp_id otp : String) (now : ℕ)
    (db : Db) where
  -- Why no one-time password is created.
  abbrev pub IsRefused : Type 0
  IsRefused =
      (prisma.find_first (by_email ext email) db.users ≡ none)
      ⊎ ((u : User) × (prisma.find_first (by_email ext email) db.users ≡ some u)
          × ((is_some (given u.temp_password) ≡ true)
              ⊎ (ext.compare_password password u.password ≡ false)))

  -- The user that may sign in.
  abbrev pub IsWelcome : User → Type 0
  IsWelcome u =
      (prisma.find_first (by_email ext email) db.users ≡ some u)
      × (is_some (given u.temp_password) ≡ false)
      × (ext.compare_password password u.password ≡ true)

  -- `requestLoginOtp` either throws `bad_request` and changes nothing, and then the email finds nobody, or
  -- the user has a temporary password left, or the password is wrong; or none of these holds,
  -- and exactly one one-time password is added: the user's, unused, with the configured end;
  -- and the call returns exactly if the mail server takes the mail.
  pub request_login_otp-cases :
      (IsRefused
        × ((m : String) × (request_login_otp prisma ext email password otp_id otp now db
              ≡ (err (error bad_request m), db))))
      ⊎ ((u : User) × IsWelcome u
          × (let (r, db') = request_login_otp prisma ext email password otp_id otp now db in
              (db'.otps
                ≡ db.otps
                  ++ record {
                    id = otp_id;
                    user_id = u.id;
                    otp_code = otp;
                    expires_at = expiry ext now;
                    is_used = false;
                  }
                    ∷ [])
              × (db'.users ≡ db.users)
              × ((r ≡ ok "OTP sent to your email") × (ext.delivers (otp_mail email otp) ≡ true)
                  ⊎ (ext.delivers (otp_mail email otp) ≡ false)
                    × (r ≡ err (error bad_request "Failed to send email")))))
  unfolding request_login_otp Store.find_user_by_email Store.create_otp send
  request_login_otp-cases = elim (Option-cases (prisma.find_first (by_email ext email) db.users)) [
    | inl e ↦ inl (inl e, ("Invalid credentials", rw e))
    | inr (u, e) ↦ elim (Bool-cases (is_some (given u.temp_password))) [
      | inl pending ↦ inl (
        inr (u, e, inl pending),
        ("Please complete your invitation verification first", rw (e, pending)),
      )
      | inr settled ↦ elim (Bool-cases (ext.compare_password password u.password)) [
        | inr wrong ↦ inl (inr (u, e, inr wrong), ("Invalid credentials", rw (e, settled, wrong)))
        | inl right ↦ elim (Bool-cases (ext.delivers (otp_mail email otp))) [
          | inl taken ↦ inr (
            u,
            (e, settled, right),
            (
              rw (e, settled, right, taken, prisma.rows_create _ db.otps),
              rw (e, settled, right, taken),
              inl (rw (e, settled, right, taken), taken),
            ),
          )
          | inr lost ↦ inr (
            u,
            (e, settled, right),
            (
              rw (e, settled, right, lost, prisma.rows_create _ db.otps),
              rw (e, settled, right, lost),
              inr (lost, rw (e, settled, right, lost)),
            ),
          )
        ]
      ]
    ]
  ]

-- `requestPasswordReset` answers every email alike, whether or not a user has it, as long as the mail
-- server takes the mail.
pub request_password_reset-uniform :
    (prisma : Prisma) (ext : External) (email otp_id otp : String) (now : ℕ) (db : Db)
    → ext.delivers (reset_mail email otp) ≡ true
    → (request_password_reset prisma ext email otp_id otp now db).0 ≡ ok reset_message
unfolding request_password_reset Store.find_user_by_email Store.create_otp send
request_password_reset-uniform prisma ext email otp_id otp now db taken =
    elim (Option-cases (prisma.find_first (by_email ext email) db.users)) [
      | inl e ↦ rw e
      | inr (u, e) ↦ rw (e, taken)
    ]
