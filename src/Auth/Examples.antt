-- ===== src/Auth/Examples.antt =====
-- The theorems at concrete inputs.
use vnp_dbms_backend.Common.{
  ◌+◌, ◌-◌, ◌*◌, ◌≤◌, ◌<◌, String, ◌≡◌, ◌≢◌, ◌⊎◌, refl, true, false, none, some, [], ◌∷◌, ◌++◌,
  arith, ok, err, error, bad_request, conflict, In, here, there, not-In-nil, str_eq, eq_self,
  ne_of_eq-false, if◌then◌else◌,
}
use vnp_dbms_backend.Common.Prisma.{scanning}
use vnp_dbms_backend.Permission.Types.{UserRole}
use vnp_dbms_backend.Auth.Store
use vnp_dbms_backend.Auth.Store.{
  Db, User, Otp, otp_mail, reset_mail, invitation_mail, escape_plus, is_valid_otp,
}
use vnp_dbms_backend.Auth.External.{External}
use vnp_dbms_backend.Auth.Session.{AuthSession, generate_auth_session, sign_auth_tokens}
use vnp_dbms_backend.Auth.Login.{
  VerifyLoginOtp, ResetPassword, verify_login_otp, request_login_otp, request_password_reset,
  reset_password, expiry, reset_message,
}
use vnp_dbms_backend.Auth.Invite.{
  VerifyInvitation, verify_invitation, InviteUser, resend_invitation, Fresh, remaining, in_cooldown,
  valid_for_days,
}
use vnp_dbms_backend.Auth.Admin.{CreateSuperAdmin, new_role, create_super_admin, upsert_role}
use vnp_dbms_backend.Auth.Accounts.{OnlyMatch}
use vnp_dbms_backend.Auth.Otp.{IsValidOtp, by_email, used, verify_login_otp-ok}
use vnp_dbms_backend.Auth.OneUse.{OneOtp, verify_login_otp-once}
use vnp_dbms_backend.Auth.SignIn.{SignsIn, login-SignsIn, reset-SignsIn}
use vnp_dbms_backend.Auth.Credentials.{IsRefused, IsWelcome, request_login_otp-cases}
use vnp_dbms_backend.Auth.Invitations.{settled, remaining_bounds}
use vnp_dbms_backend.Auth.Resend.{
  renewed, renewed_db, verify_invitation-opens_login, resend_invitation-waits,
}
use vnp_dbms_backend.Auth.SuperAdmin.{UniqueSuperRole, create_super_admin-once}
use vnp_dbms_backend.Auth.Reset.{reset_password-opens_login}

-- Passwords are stored as they are, every mail is taken, and a token is the email it was signed for.
abbrev plain : External
plain = record {
  hash = λ salt p. p;
  compare_password = λ p stored. str_eq p stored;
  compare-hash = λ salt p. eq_self p;
  email_matches = λ stored pattern. str_eq (escape_plus stored) pattern;
  email_matches-escape = λ e. eq_self (escape_plus e);
  delivers = λ m. true;
  sign = λ p secret life. p.email;
  verify = λ token secret.
      if str_eq token "forged"
      then none
      else some (record { sub = "u1"; email = token; role_id = "r1" });
  otp_expiry_minutes = 5;
  temp_password_expiry_days = 5;
  access_secret = "a";
  refresh_secret = "r";
  access_expires_in = "15m";
  refresh_expires_in = "7d";
  session_access_expires_in = "15m";
  session_refresh_expires_in = "1d";
}

abbrev ann : User
ann = record {
  id = "u1";
  email = "ann+x@vnp.com";
  first_name = "Ann";
  last_name = "A";
  language = "en";
  job_title = none;
  phone_number = none;
  user_role_id = "r1";
  password = "secret";
  is_verified = true;
  temp_password = none;
  invitation_sent_at = none;
  invited_by_id = none;
}

abbrev bob : User
bob = record {
  id = "u2";
  email = "bob@vnp.com";
  first_name = "Bob";
  last_name = "B";
  language = "en";
  job_title = none;
  phone_number = none;
  user_role_id = "r1";
  password = "t3mp";
  is_verified = false;
  temp_password = some "t3mp";
  invitation_sent_at = some 1000;
  invited_by_id = some "u1";
}

abbrev clerk_role : UserRole
clerk_role = record (new_role "r1") { name = "Clerk" }

abbrev ann_otp : Otp
ann_otp = record {
  id = "o1";
  user_id = "u1";
  otp_code = "123456";
  expires_at = 5000;
  is_used = false;
}

abbrev two_users : Db
two_users = record {
  users = ann ∷ bob ∷ [];
  otps = ann_otp ∷ [];
  user_roles = clerk_role ∷ [];
  accessed_properties = [];
  sent = [];
}

abbrev ann_code : VerifyLoginOtp
ann_code = record { email = "ann+x@vnp.com"; otp = "123456"; keep_sign_in = none }

abbrev signed_in : Db
signed_in = record two_users { otps = used "o1" (ann_otp ∷ []) }

abbrev ann_session : AuthSession
ann_session = record {
  tokens = record { access_token = "ann+x@vnp.com"; refresh_token = "ann+x@vnp.com" };
  user_id = "u1";
  email = "ann+x@vnp.com";
  first_name = "Ann";
  last_name = "A";
}

ann_signs_in : verify_login_otp scanning plain ann_code 4000 two_users ≡ (ok ann_session, signed_in)
unfolding verify_login_otp Store.find_user_by_email Store.find_valid_otp Store.mark_otp_as_used
    escape_plus generate_auth_session sign_auth_tokens
ann_signs_in = refl

verify_login_otp-ok_example :
    (u : User) × (o : Otp) × (v : User) × In u two_users.users
    × (plain.email_matches u.email (escape_plus "ann+x@vnp.com") ≡ true)
    × In o two_users.otps
    × IsValidOtp u.id "123456" 4000 o
    × (signed_in ≡ record two_users { otps = used o.id two_users.otps })
    × In v two_users.users
    × (plain.email_matches v.email (escape_plus u.email) ≡ true)
    × (ann_session ≡ generate_auth_session plain v true)
verify_login_otp-ok_example =
    verify_login_otp-ok scanning plain ann_code 4000 two_users signed_in ann_session ann_signs_in

one_code : (user_id : String) → OneOtp user_id "123456" (ann_otp ∷ [])
one_code user_id x y i j _ _ = same_id i j
  where
    is_ann_otp : {x : Otp} → In x (ann_otp ∷ []) → x.id ≡ "o1"
    is_ann_otp here = refl
    is_ann_otp (there i) = absurd (not-In-nil i)

    same_id : {x y : Otp} → In x (ann_otp ∷ []) → In y (ann_otp ∷ []) → x.id ≡ y.id
    same_id i j = rw (is_ann_otp i, is_ann_otp j)

verify_login_otp-once_example :
    verify_login_otp scanning plain ann_code 4500 signed_in
    ≡ (err (error bad_request "Invalid or expired OTP"), signed_in)
verify_login_otp-once_example =
    verify_login_otp-once scanning plain ann_code 4000 two_users signed_in ann_session 4500
      ann_signs_in (λ u i. one_code u.id)

find_ann : scanning.find_first (by_email plain "ann+x@vnp.com") two_users.users ≡ some ann
unfolding escape_plus
find_ann = refl

find_bob : scanning.find_first (by_email plain "bob@vnp.com") two_users.users ≡ some bob
unfolding escape_plus
find_bob = refl

login-SignsIn_example :
    (db' : Db) × (request_login_otp scanning plain "ann+x@vnp.com" "secret" "o2" "123456" 6000
        two_users
      ≡ (ok "OTP sent to your email", db'))
    × SignsIn scanning plain ann_code 7000 ann db'
login-SignsIn_example =
    login-SignsIn scanning plain ann_code ann "o2" 6000 7000 two_users "secret" find_ann refl refl
      refl (omega arith)

abbrev bob_code : VerifyLoginOtp
bob_code = record { email = "bob@vnp.com"; otp = "654321"; keep_sign_in = some false }

reset-SignsIn_example :
    (db' : Db) × (request_password_reset scanning plain "bob@vnp.com" "o2" "654321" 6000 two_users
      ≡ (ok reset_message, db'))
    × SignsIn scanning plain bob_code 7000 bob db'
reset-SignsIn_example =
    reset-SignsIn scanning plain bob_code bob "o2" 6000 7000 two_users find_bob refl (omega arith)

request_login_otp-cases_example :
    (IsRefused scanning plain "bob@vnp.com" "t3mp" "o2" "654321" 6000 two_users
      × ((m : String) × (request_login_otp scanning plain "bob@vnp.com" "t3mp" "o2" "654321" 6000
              two_users
            ≡ (err (error bad_request m), two_users))))
    ⊎ ((u : User) × IsWelcome scanning plain "bob@vnp.com" "t3mp" "o2" "654321" 6000 two_users u
        × (let (r, db') =
              request_login_otp scanning plain "bob@vnp.com" "t3mp" "o2" "654321" 6000 two_users in
            (db'.otps
              ≡ two_users.otps
                ++ record {
                  id = "o2";
                  user_id = u.id;
                  otp_code = "654321";
                  expires_at = expiry plain 6000;
                  is_used = false;
                }
                  ∷ [])
            × (db'.users ≡ two_users.users)
            × ((r ≡ ok "OTP sent to your email")
                  × (plain.delivers (otp_mail "bob@vnp.com" "654321") ≡ true)
                ⊎ (plain.delivers (otp_mail "bob@vnp.com" "654321") ≡ false)
                  × (r ≡ err (error bad_request "Failed to send email")))))
request_login_otp-cases_example =
    request_login_otp-cases scanning plain "bob@vnp.com" "t3mp" "o2" "654321" 6000 two_users

remaining_bounds_example :
    let (minutes, seconds) = remaining 1000 200500 in
    let wait = minutes * 60 + seconds in
    (1 ≤ wait)
    × (wait ≤ 300)
    × (seconds < 60)
    × (in_cooldown (some 1000) (200500 + wait * 1000) ≡ false)
    × (in_cooldown (some 1000) (200500 + (wait - 1) * 1000) ≡ true)
remaining_bounds_example = remaining_bounds 1000 200500 refl (omega arith)

abbrev bob_accepts : VerifyInvitation
bob_accepts = record { email = "bob@vnp.com"; temp_password = "t3mp"; new_password = "hunter2" }

only_bob : OnlyMatch plain.email_matches "bob@vnp.com" bob two_users.users
unfolding escape_plus
only_bob x here h = cc h
only_bob x (there here) h = refl
only_bob x (there (there i)) h = absurd (not-In-nil i)

filled_in : bob_accepts.temp_password ≢ ""
filled_in = ne_of_eq-false bob_accepts.temp_password "" refl

verify_invitation-opens_login_example :
    (db' db'' : Db) × (request_login_otp scanning plain "bob@vnp.com" "t3mp" "o2" "654321" 6000
        two_users
      ≡ (err (error bad_request "Please complete your invitation verification first"), two_users))
    × (verify_invitation scanning plain bob_accepts "salt" two_users
        ≡ (ok (generate_auth_session plain (settled plain bob_accepts "salt" bob) true), db'))
    × (request_login_otp scanning plain "bob@vnp.com" "hunter2" "o2" "654321" 6000 db'
        ≡ (ok "OTP sent to your email", db''))
verify_invitation-opens_login_example =
    verify_invitation-opens_login scanning plain bob_accepts "salt" bob two_users "t3mp" "o2"
      "654321" 6000 find_bob only_bob refl filled_in refl

abbrev fresh : Fresh
fresh = record { user_id = "u3"; temp_password = "n3w"; salt = "salt" }

fresh_filled : fresh.temp_password ≢ ""
fresh_filled = ne_of_eq-false fresh.temp_password "" refl

resend_invitation-waits_example :
    (resend_invitation scanning plain "bob@vnp.com" (some "all") fresh 400000 two_users
      ≡ (ok (valid_for_days 5), renewed_db plain fresh 400000 bob clerk_role two_users))
    × (scanning.find_first
          (by_email plain "bob@vnp.com")
          (renewed_db plain fresh 400000 bob clerk_role two_users).users
        ≡ some (renewed plain fresh 400000 bob))
    × (resend_invitation scanning plain "bob@vnp.com"
          (some "all")
          fresh
          500000
          (renewed_db plain fresh 400000 bob clerk_role two_users)
        ≡ (
          err (error bad_request "Please wait before resending the invitation."),
          renewed_db plain fresh 400000 bob clerk_role two_users,
        ))
resend_invitation-waits_example =
    resend_invitation-waits scanning plain "bob@vnp.com" (some "all") fresh 400000 bob clerk_role
      two_users fresh 500000 refl find_bob only_bob refl refl refl refl fresh_filled (omega arith)

abbrev cy : InviteUser
cy = record {
  email = "cy@vnp.com";
  role_id = "r9";
  first_name = "Cy";
  last_name = "C";
  language = "en";
  job_title = none;
  phone_number = none;
  portfolio_ids = some ("p1" ∷ []);
  property_ids = none;
}

find_no_cy : scanning.find_first (by_email plain "cy@vnp.com") two_users.users ≡ none
unfolding escape_plus
find_no_cy = refl

abbrev root : CreateSuperAdmin
root = record {
  email = "root@vnp.com";
  password = "pw";
  first_name = "R";
  last_name = "T";
  language = "en";
}

abbrev with_root : Db
with_root = record two_users {
  users =
      ann
      ∷ bob
      ∷ record ann {
        id = "u5";
        email = "root@vnp.com";
        first_name = "R";
        last_name = "T";
        user_role_id = "r5";
        password = "pw";
      }
      ∷ [];
  user_roles = clerk_role ∷ new_role "r5" ∷ [];
}

root_created : create_super_admin scanning plain root "u5" "r5" "salt" two_users ≡ (
  ok (record {
    tokens = record { access_token = "root@vnp.com"; refresh_token = "root@vnp.com" };
    user_id = "u5";
    email = "root@vnp.com";
    first_name = "R";
    last_name = "T";
  }),
  with_root,
)
unfolding create_super_admin upsert_role Store.find_user_by_email Store.create_user escape_plus
    generate_auth_session sign_auth_tokens
root_created = refl

one_super_role : UniqueSuperRole with_root.user_roles
one_super_role x y here j h k = cc h
one_super_role x y (there (there i)) j h k = absurd (not-In-nil i)
one_super_role x y (there here) here h k = cc k
one_super_role x y (there here) (there here) h k = refl
one_super_role x y (there here) (there (there j)) h k = absurd (not-In-nil j)

-- Another user has come since.
abbrev busy : Db
busy = record with_root {
  users = record bob { id = "u9"; email = "new@vnp.com" } ∷ with_root.users;
}

create_super_admin-once_example :
    (m : String) × (after : Db) × (create_super_admin scanning plain
        (record root { email = "two@vnp.com" })
        "u6"
        "r6"
        "salt"
        busy
      ≡ (err (error conflict m), after))
    × (after.users ≡ busy.users)
create_super_admin-once_example =
    create_super_admin-once scanning plain root "u5" "r5" "salt" two_users with_root
      (record {
        tokens = record { access_token = "root@vnp.com"; refresh_token = "root@vnp.com" };
        user_id = "u5";
        email = "root@vnp.com";
        first_name = "R";
        last_name = "T";
      })
      busy (record root { email = "two@vnp.com" }) "u6" "r6" "salt" root_created (λ x at. at)
      (λ u at. there at) one_super_role

abbrev ann_resets : ResetPassword
ann_resets = record { email = "ann+x@vnp.com"; otp = "123456"; new_password = "hunter2" }

only_ann : OnlyMatch plain.email_matches "ann+x@vnp.com" ann two_users.users
unfolding escape_plus
only_ann x here h = refl
only_ann x (there here) h = cc h
only_ann x (there (there i)) h = absurd (not-In-nil i)

reset_password-opens_login_example :
    (db' db'' : Db) × (reset_password scanning plain ann_resets "salt" 4000 two_users
      ≡ (ok "Password reset successfully", db'))
    × (request_login_otp scanning plain "ann+x@vnp.com" "hunter2" "o2" "654321" 4100 db'
        ≡ (ok "OTP sent to your email", db''))
    × (reset_password scanning plain ann_resets "salt" 4200 db'
        ≡ (err (error bad_request "Invalid or expired OTP"), db'))
reset_password-opens_login_example =
    reset_password-opens_login scanning plain ann_resets "salt" 4000 ann ann_otp two_users "o2"
      "654321" 4100 4200 "salt" find_ann only_ann here
      (record { owner = refl; code = refl; unused = refl; in_time = omega arith }) (one_code "u1")
      refl refl
