-- ===== src/Auth/Admin.antt =====
-- `createSuperAdmin` of src/modules/auth/auth.service.ts.
use vnp_dbms_backend.Common.{
  String, Bool, true, false, Option, none, some, str_eq, is_some, Exec, raise, gets, modify, ◌>>=◌,
  ◌>>◌, conflict, internal, pure, or_raise, when,
}
use vnp_dbms_backend.Common.Prisma.{Prisma}
use vnp_dbms_backend.Permission.Types.{UserRole, Permission, full, all}
use vnp_dbms_backend.Auth.Store
use vnp_dbms_backend.Auth.Store.{Db, User}
use vnp_dbms_backend.Auth.External.{External}
use vnp_dbms_backend.Auth.Session.{AuthSession, generate_auth_session}

pub record CreateSuperAdmin : Type 0 where
  pub email : String
  pub password : String
  pub first_name : String
  pub last_name : String
  pub language : String

abbrev pub role_name : String
role_name = "Super Admin"

abbrev pub full_permission : Option Permission
full_permission = some (record { permission_level = full; access_level = all })

-- The `create` and the `update` of the upsert. (The description, the order and `is_active` are not modelled.)
abbrev pub new_role : String → UserRole
new_role id = record {
  id = id;
  name = role_name;
  is_external = false;
  can_access_mis = true;
  portfolio_permission = full_permission;
  property_permission = full_permission;
  audit_permission = full_permission;
  user_permission = full_permission;
  system_settings_permission = full_permission;
  bank_details_permission = full_permission;
  roles_permission = full_permission;
  access_logs_permission = full_permission;
}

abbrev pub raised : UserRole → UserRole
raised r = record r { roles_permission = full_permission; access_logs_permission = full_permission }

abbrev pub is_super_role : UserRole → Bool
is_super_role r = str_eq r.name role_name

module _ (prisma : Prisma) (ext : External) where
  abbrev upsert_of : Option UserRole → String → Exec Db UserRole
  upsert_of (some r) id = do
    modify (λ db. record db { user_roles = prisma.update is_super_role raised db.user_roles })
    pure (raised r)
  upsert_of none id = do
    modify (λ db. record db { user_roles = prisma.create (new_role id) db.user_roles })
    pure (new_role id)

  -- `prisma.userRole.upsert`
  unfoldable pub upsert_role : String → Exec Db UserRole
  upsert_role id = do
    found ← gets (λ db. prisma.find_first is_super_role db.user_roles)
    upsert_of found id

  abbrev pub verified : CreateSuperAdmin → (user_id role_id salt : String) → User
  verified d user_id role_id salt = record {
    id = user_id;
    email = d.email;
    first_name = d.first_name;
    last_name = d.last_name;
    language = d.language;
    job_title = none;
    phone_number = none;
    user_role_id = role_id;
    password = ext.hash salt d.password;
    is_verified = true;
    temp_password = none;
    invitation_sent_at = none;
    invited_by_id = none;
  }

  -- `user_id` and `role_id` are the ids of new documents.
  unfoldable pub create_super_admin :
      CreateSuperAdmin → (user_id role_id salt : String) → Exec Db AuthSession
  create_super_admin d user_id role_id salt = do
    existing ← Store.find_user_by_email prisma ext.email_matches d.email
    when (is_some existing) (raise conflict "A user with this email already exists")
    role ← upsert_role role_id
    holder ← gets (λ db. prisma.find_first (λ u. str_eq u.user_role_id role.id) db.users)
    when (is_some holder)
        (raise conflict "A Super Admin already exists. Only one Super Admin account is allowed.")
    created ← Store.create_user prisma (verified d user_id role.id salt)
    again ← Store.find_user_by_email prisma ext.email_matches d.email
    v ← or_raise again internal "Failed to fetch created super admin user"
    pure (generate_auth_session ext v true)
