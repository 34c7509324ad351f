-- ===== src/Auth/Otp.antt =====
-- One-time passwords: what a sign-in has checked, that each serves once, and what they open.
use vnp_dbms_backend.Common.{
  ℕ, ◌≤◌, String, ◌≡◌, sym, inl, inr, Bool, true, false, some, List, map, arith, Option-cases, In,
  str_eq, eq_iff, if◌then◌else◌, get_or, ok, returned-injective, and-eq-true_iff,
}
use vnp_dbms_backend.Common.Prisma.{Prisma}
use vnp_dbms_backend.Auth.Store
use vnp_dbms_backend.Auth.Store.{Db, User, Otp, is_valid_otp, escape_plus}
use vnp_dbms_backend.Auth.External.{External}
use vnp_dbms_backend.Auth.Session.{AuthSession, generate_auth_session}
use vnp_dbms_backend.Auth.Login.{VerifyLoginOtp, verify_login_otp}

-- What it means that a one-time password is valid for a user.
pub record IsValidOtp (user_id otp : String) (now : ℕ) (o : Otp) : Type 0 where
  pub owner : o.user_id ≡ user_id
  pub code : o.otp_code ≡ otp
  pub unused : o.is_used ≡ false
  pub in_time : now ≤ o.expires_at

pub valid-IsValidOtp :
    (user_id otp : String) (now : ℕ) (o : Otp)
    → is_valid_otp user_id otp now o ≡ true
    → IsValidOtp user_id otp now o
valid-IsValidOtp user_id otp now o h =
    let (a, rest) = (and-eq-true_iff _ _).0 h in
    let (b, c) = (and-eq-true_iff _ _).0 rest in
    record {
      owner = (eq_iff o.user_id user_id).0 a;
      code = (eq_iff o.otp_code otp).0 b;
      unused = ground arith;
      in_time = ground arith;
    }

pub IsValidOtp-valid :
    (user_id otp : String) (now : ℕ) (o : Otp)
    → IsValidOtp user_id otp now o
    → is_valid_otp user_id otp now o ≡ true
IsValidOtp-valid user_id otp now o v =
    ground (arith, eq_iff o.user_id user_id, eq_iff o.otp_code otp)

-- The table after one document is marked as used.
abbrev pub used : String → List Otp → List Otp
used id = map (λ o. if str_eq o.id id then record o { is_used = true } else o)

-- The `where` of `findUserByEmail`.
abbrev pub by_email : External → String → User → Bool
by_email ext email u = ext.email_matches u.email (escape_plus email)

module _ (prisma : Prisma) (ext : External) (d : VerifyLoginOtp) (now : ℕ) (db db' : Db)
    (s : AuthSession) where
  -- The answers of the queries on the way to a return.
  pub record Accepted : Type 0 where
    pub user : User
    pub found_user : prisma.find_first (by_email ext d.email) db.users ≡ some user
    pub otp : Otp
    pub found_otp : prisma.find_first (is_valid_otp user.id d.otp now) db.otps ≡ some otp
    pub again : User
    pub found_again : prisma.find_first (by_email ext user.email) db.users ≡ some again
    pub session : generate_auth_session ext again (get_or d.keep_sign_in true) ≡ s
    pub stored : record db { otps = used otp.id db.otps } ≡ db'

  pub accepted : verify_login_otp prisma ext d now db ≡ (ok s, db') → Accepted
  unfolding verify_login_otp Store.find_user_by_email Store.find_valid_otp Store.mark_otp_as_used
  accepted h = elim (Option-cases (prisma.find_first (by_email ext d.email) db.users)) [
    | inl no_user ↦ cc (rw no_user at h)
    | inr (u, found_user) ↦
        elim (Option-cases (prisma.find_first (is_valid_otp u.id d.otp now) db.otps)) [
          | inl no_otp ↦ cc (rw (found_user, no_otp) at h)
          | inr (o, found_otp) ↦
              elim (Option-cases (prisma.find_first (by_email ext u.email) db.users)) [
                | inl lost ↦ cc (rw (found_user, found_otp, lost) at h)
                | inr (v, found_again) ↦
                    let (session, stored) = returned-injective (
                      rw
                        (
                          found_user,
                          found_otp,
                          found_again,
                          prisma.rows_update (λ x. str_eq x.id o.id)
                              (λ x. record x { is_used = true }) db.otps,
                        )
                        at h) in
                    record {
                      user = u;
                      found_user = found_user;
                      otp = o;
                      found_otp = found_otp;
                      again = v;
                      found_again = found_again;
                      session = session;
                      stored = stored;
                    }
              ]
        ]
  ]

  -- What a `verifyLoginOtp` that returns has established: some user's email meets the given one, and the
  -- table holds a one-time password of that user with the given code that was unused and not
  -- past its end; that document is marked as used, nothing else of the database changes, and
  -- the session is one of a user of the table.
  pub verify_login_otp-ok :
      verify_login_otp prisma ext d now db ≡ (ok s, db')
      → (u : User) × (o : Otp) × (v : User) × In u db.users
        × (ext.email_matches u.email (escape_plus d.email) ≡ true)
        × In o db.otps
        × IsValidOtp u.id d.otp now o
        × (db' ≡ record db { otps = used o.id db.otps })
        × In v db.users
        × (ext.email_matches v.email (escape_plus u.email) ≡ true)
        × (s ≡ generate_auth_session ext v (get_or d.keep_sign_in true))
  verify_login_otp-ok h =
      let a = accepted h in
      let (user_in, user_hit) = prisma.found_in (by_email ext d.email) db.users a.found_user in
      let (otp_in, otp_hit) =
        prisma.found_in (is_valid_otp a.user.id d.otp now) db.otps a.found_otp in
      let (again_in, again_hit) =
        prisma.found_in (by_email ext a.user.email) db.users a.found_again in
      (
        a.user,
        a.otp,
        a.again,
        user_in,
        user_hit,
        otp_in,
        valid-IsValidOtp a.user.id d.otp now a.otp otp_hit,
        sym a.stored,
        again_in,
        again_hit,
        sym a.session,
      )
