-- ===== src/Permission/Types.antt =====
-- src/common/interfaces/permission.interface.ts, with the two enums of prisma/schema.prisma.
use vnp_dbms_backend.Common.{String, Bool, true, false, Option, none, some}

pub data PermissionLevel : Type 0 where
  full update view : PermissionLevel

pub data AccessLevel : Type 0 where
  all partial no_access : AccessLevel

pub data PermissionAction : Type 0 where
  create read update delete : PermissionAction

pub data ModuleType : Type 0 where
  portfolio property audit user system_settings bank_details roles access_logs : ModuleType

pub record Permission : Type 0 where
  pub permission_level : PermissionLevel
  pub access_level : AccessLevel

pub record UserRole : Type 0 where
  pub id : String
  pub name : String
  pub is_external : Bool
  pub can_access_mis : Bool
  pub portfolio_permission : Option Permission
  pub property_permission : Option Permission
  pub audit_permission : Option Permission
  pub user_permission : Option Permission
  pub system_settings_permission : Option Permission
  pub bank_details_permission : Option Permission
  pub roles_permission : Option Permission
  pub access_logs_permission : Option Permission

-- The signed-in user. The checks treat a missing user as one with no role.
pub record User : Type 0 where
  pub id : String
  pub email : String
  pub user_role_id : String
  pub role : Option UserRole

-- The values of the enums, as they stand in messages and in the database.
abbrev pub level_text : PermissionLevel → String
level_text full = "all"
level_text update = "update"
level_text view = "view"

abbrev pub action_text : PermissionAction → String
action_text create = "create"
action_text read = "read"
action_text update = "update"
action_text delete = "delete"

abbrev pub module_text : ModuleType → String
module_text portfolio = "portfolio"
module_text property = "property"
module_text audit = "audit"
module_text user = "user"
module_text system_settings = "system_settings"
module_text bank_details = "bank_details"
module_text roles = "roles"
module_text access_logs = "access_logs"

-- `===` on the enums
abbrev pub is_all : AccessLevel → Bool
is_all all = true
is_all _ = false

abbrev pub is_partial : AccessLevel → Bool
is_partial partial = true
is_partial _ = false

abbrev pub is_no_access : AccessLevel → Bool
is_no_access no_access = true
is_no_access _ = false

abbrev pub is_full : PermissionLevel → Bool
is_full full = true
is_full _ = false

abbrev pub is_update : PermissionLevel → Bool
is_update update = true
is_update _ = false

abbrev pub is_user_module : ModuleType → Bool
is_user_module user = true
is_user_module _ = false

-- `permission?.access_level === 'all'`
abbrev pub grants_all : Option Permission → Bool
grants_all none = false
grants_all (some p) = is_all p.access_level
