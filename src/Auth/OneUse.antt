-- ===== src/Auth/OneUse.antt =====
-- A one-time password serves once.
use vnp_dbms_backend.Common.{
  ℕ, String, ◌≡◌, refl, sym, subst, ap, ◌∙◌, inl, inr, ◌≢◌, true, false, none, List, Option-cases,
  Bool-cases, In, In-map, str_eq, eq_iff, if◌then◌else◌, ok, err, error, bad_request,
}
use vnp_dbms_backend.Common.Prisma.{Prisma}
use vnp_dbms_backend.Auth.Store
use vnp_dbms_backend.Auth.Store.{Db, User, Otp, is_valid_otp}
use vnp_dbms_backend.Auth.External.{External}
use vnp_dbms_backend.Auth.Session.{AuthSession}
use vnp_dbms_backend.Auth.Login.{VerifyLoginOtp, verify_login_otp}
use vnp_dbms_backend.Auth.Otp.{IsValidOtp, valid-IsValidOtp, used, by_email, accepted}

-- At most one unused one-time password has this owner and this code.
abbrev pub OneOtp : String → String → List Otp → Type 0
OneOtp user_id otp rows =
    (x y : Otp)
    → In x rows
    → In y rows
    → (x.user_id ≡ user_id) × (x.otp_code ≡ otp) × (x.is_used ≡ false)
    → (y.user_id ≡ user_id) × (y.otp_code ≡ otp) × (y.is_used ≡ false)
    → x.id ≡ y.id

abbrev marked : String → Otp → Otp
marked id o = if str_eq o.id id then record o { is_used = true } else o

unused-marked :
    (id : String) (y : Otp) → (marked id y).is_used ≡ false → (marked id y ≡ y) × (y.id ≢ id)
unused-marked id y h = elim (Bool-cases (str_eq y.id id)) [
  | inl hit ↦ cc (rw hit at h)
  | inr miss ↦ rw miss (refl, λ e. cc (miss, (eq_iff y.id id).1 e))
]

-- A document that is unused after the marking is another one, and was there before.
unused-In :
    (id : String) (rows : List Otp) (x : Otp)
    → In x (used id rows)
    → x.is_used ≡ false
    → In x rows × (x.id ≢ id)
unused-In id rows x i unused =
    let (y, at, e) = In-map (marked id) rows i in
    let (same, other) = unused-marked id y (ap (λ o. o.is_used) (sym e) ∙ unused) in
    (subst (λ z. In z rows) (sym (e ∙ same)) at, λ f. other (ap (λ o. o.id) (sym (e ∙ same)) ∙ f))

pub none_left :
    (prisma : Prisma) (user_id otp : String) (now later : ℕ) (rows : List Otp) (o : Otp)
    → In o rows
    → IsValidOtp user_id otp now o
    → OneOtp user_id otp rows
    → prisma.find_first (is_valid_otp user_id otp later) (used o.id rows) ≡ none
none_left prisma user_id otp now later rows o i v one =
    elim (Option-cases (prisma.find_first (is_valid_otp user_id otp later) (used o.id rows))) [
      | inl e ↦ e
      | inr (x, e) ↦
          let (at, hit) = prisma.found_in (is_valid_otp user_id otp later) (used o.id rows) e in
          let w = valid-IsValidOtp user_id otp later x hit in
          let (was_in, other) = unused-In o.id rows x at w.unused in
          absurd (other (one x o was_in i (w.owner, w.code, w.unused) (v.owner, v.code, v.unused)))
    ]

module _ (prisma : Prisma) (ext : External) (d : VerifyLoginOtp) (now : ℕ) (db db' : Db)
    (s : AuthSession) where
  -- Once `verifyLoginOtp` has returned, the same request is refused at any later or earlier time
  -- with the exception for an invalid one-time password, and changes nothing, if no second unused one-time password
  -- of any user has the same owner and code.
  pub verify_login_otp-once :
      (later : ℕ)
      → verify_login_otp prisma ext d now db ≡ (ok s, db')
      → ((u : User) → In u db.users → OneOtp u.id d.otp db.otps)
      → verify_login_otp prisma ext d later db'
        ≡ (err (error bad_request "Invalid or expired OTP"), db')
  unfolding verify_login_otp Store.find_user_by_email Store.find_valid_otp
  verify_login_otp-once later h one =
      let a = accepted prisma ext d now db db' s h in
      let (user_in, _) = prisma.found_in (by_email ext d.email) db.users a.found_user in
      let (otp_in, otp_hit) =
        prisma.found_in (is_valid_otp a.user.id d.otp now) db.otps a.found_otp in
      let v = valid-IsValidOtp a.user.id d.otp now a.otp otp_hit in
      let no_otp : prisma.find_first (is_valid_otp a.user.id d.otp later) (used a.otp.id db.otps)
          ≡ none =
        none_left prisma a.user.id d.otp now later db.otps a.otp otp_in v (one a.user user_in) in
      rw (← a.stored, a.found_user, no_otp)
