-- ===== src/Auth/Invite.antt =====
-- Invitations with a temporary password, in src/modules/auth/auth.service.ts.
use vnp_dbms_backend.Common.{
  ℕ, ◌+◌, ◌-◌, ◌*◌, ◌/◌, ◌%◌, String, Bool, true, false, not, ◌||◌, Option, none, some, List, [],
  ◌∷◌, if◌then◌else◌, is_some, str_eq, ltb, Exec, raise, ◌>>=◌, ◌>>◌, bad_request, forbidden,
  conflict, internal, pure, or_raise, when, get_or,
}
use vnp_dbms_backend.Common.Prisma.{Prisma}
use vnp_dbms_backend.Permission.Service.{given}
use vnp_dbms_backend.Auth.Store
use vnp_dbms_backend.Auth.Store.{Db, User, Mail, invitation_mail}
use vnp_dbms_backend.Auth.External.{External, send}
use vnp_dbms_backend.Auth.Session.{AuthSession, generate_auth_session}

pub record InviteUser : Type 0 where
  pub email : String
  pub role_id : String
  pub first_name : String
  pub last_name : String
  pub language : String
  pub job_title : Option String
  pub phone_number : Option String
  pub portfolio_ids : Option (List String)
  pub property_ids : Option (List String)

pub record VerifyInvitation : Type 0 where
  pub email : String
  pub temp_password : String
  pub new_password : String

-- `inviterRolePermissionLevel !== 'all'`
abbrev pub may_invite : Option String → Bool
may_invite none = false
may_invite (some level) = str_eq level "all"

-- The success message promises that the temporary password is valid for this many days.
pub data InvitationSent : Type 0 where
  valid_for_days : ℕ → InvitationSent

abbrev is_nil : List String → Bool
is_nil [] = true
is_nil (x ∷ xs) = false

abbrev pub cooldown_ms : ℕ
cooldown_ms = 5 * 60 * 1000

-- `timeSinceLastInvitation < cooldownMs`
abbrev pub in_cooldown : Option ℕ → ℕ → Bool
in_cooldown none now = false
in_cooldown (some sent_at) now = ltb now (sent_at + cooldown_ms)

-- The minutes and seconds that the refusal tells the user to wait: `Math.ceil` of the seconds that
-- remain, split by 60. (The message in the model leaves the two numbers out.)
unfoldable pub remaining : (sent_at now : ℕ) → ℕ × ℕ
remaining sent_at now =
    let seconds = (sent_at + cooldown_ms - now + 999) / 1000 in (seconds / 60, seconds % 60)

-- The documents and texts that are new in a call: ids, the temporary password and bcrypt's salt.
pub record Fresh : Type 0 where
  pub user_id : String
  pub temp_password : String
  pub salt : String

-- The invitation names a portfolio or a property.
abbrev pub names_resources : InviteUser → Bool
names_resources d =
    not (is_nil (get_or d.portfolio_ids [])) || not (is_nil (get_or d.property_ids []))

-- `!user.temp_password || user.is_verified`
abbrev pub nothing_pending : User → Bool
nothing_pending u = not (is_some (given u.temp_password)) || u.is_verified

module _ (prisma : Prisma) (ext : External) where
  -- The document of the invited user.
  abbrev pub invited : InviteUser → String → Fresh → ℕ → User
  invited d inviter_id new now = record {
    id = new.user_id;
    email = d.email;
    first_name = d.first_name;
    last_name = d.last_name;
    language = d.language;
    job_title = d.job_title;
    phone_number = d.phone_number;
    user_role_id = d.role_id;
    password = ext.hash new.salt new.temp_password;
    is_verified = false;
    temp_password = some new.temp_password;
    invitation_sent_at = some now;
    invited_by_id = some inviter_id;
  }

  abbrev grant_access : InviteUser → String → Exec Db (Unit {0})
  grant_access d user_id =
      if names_resources d
      then Store.create_user_accessed_properties prisma user_id (get_or d.portfolio_ids [])
          (get_or d.property_ids [])
      else pure tt

  unfoldable pub invite_user :
      InviteUser
      → (inviter_id : String) → Option String
      → Fresh
      → (now : ℕ) → Exec Db InvitationSent
  invite_user d inviter_id level new now = do
    when (not (may_invite level)) (
        raise forbidden
          "You do not have permission to invite users. Only users with full user management permission can invite.")
    existing ← Store.find_user_by_email prisma ext.email_matches d.email
    when (is_some existing) (raise conflict "User with this email already exists")
    user ← Store.create_user prisma (invited d inviter_id new now)
    grant_access d user.id
    role ← Store.find_role prisma d.role_id
    r ← or_raise role internal "Role not found"
    send ext (invitation_mail d.email new.temp_password r.name d.first_name r.is_external)
    pure (valid_for_days ext.temp_password_expiry_days)

  unfoldable pub resend_invitation :
      (email : String) → Option String → Fresh → (now : ℕ) → Exec Db InvitationSent
  resend_invitation email level new now = do
    when (not (may_invite level)) (
        raise forbidden
          "You do not have permission to resend invitations. Only users with full user management permission can resend.")
    found ← Store.find_user_by_email prisma ext.email_matches email
    u ← or_raise found bad_request "User not found"
    when (nothing_pending u) (
        raise bad_request
          "No pending invitation found for this user. The user may have already verified their account.")
    when (in_cooldown u.invitation_sent_at now)
        (raise bad_request "Please wait before resending the invitation.")
    Store.update_user_password prisma u.id (ext.hash new.salt new.temp_password)
    Store.renew_temp_password prisma u.id new.temp_password now
    role ← Store.find_role prisma u.user_role_id
    r ← or_raise role internal "Role not found"
    send ext (invitation_mail u.email new.temp_password r.name u.first_name r.is_external)
    pure (valid_for_days ext.temp_password_expiry_days)

  -- `user.temp_password !== data.temp_password`, for a password that is there
  abbrev other_text : Option String → String → Bool
  other_text none s = true
  other_text (some t) s = not (str_eq t s)

  unfoldable pub verify_invitation : VerifyInvitation → (salt : String) → Exec Db AuthSession
  verify_invitation d salt = do
    found ← Store.find_user_by_email prisma ext.email_matches d.email
    u ← or_raise found bad_request "Invalid credentials"
    when (not (is_some (given u.temp_password))) (raise bad_request "No pending invitation found")
    when (other_text u.temp_password d.temp_password)
        (raise bad_request "Invalid temporary password")
    Store.update_user_password prisma u.id (ext.hash salt d.new_password)
    Store.clear_temp_password prisma u.id
    again ← Store.find_user_by_email prisma ext.email_matches d.email
    v ← or_raise again bad_request "User not found"
    pure (generate_auth_session ext v true)
