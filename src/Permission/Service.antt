-- ===== src/Permission/Service.antt =====
-- src/common/services/permission.service.ts
use Prim.Native.String.{◌++◌}
use vnp_dbms_backend.Common.{
  String, Bool, true, false, not, ◌&&◌, ◌||◌, Option, none, some, List, [], ◌∷◌, str_eq, is_empty,
  is_some, if◌then◌else◌, Result, ok, err, error, forbidden,
}
use vnp_dbms_backend.Common.Prisma.{Prisma}
use vnp_dbms_backend.Permission.Types.{
  PermissionLevel, full, view, PermissionAction, create, read, delete, ModuleType, portfolio,
  property, audit, user, system_settings, bank_details, roles, access_logs, Permission, UserRole,
  User, level_text, action_text, module_text, is_all, is_partial, is_no_access, is_full, is_update,
  is_user_module,
}

-- `permissionMatrix`
unfoldable pub permission_matrix : PermissionLevel → PermissionAction → Bool
permission_matrix full create = true
permission_matrix full read = true
permission_matrix full PermissionAction.update = true
permission_matrix full delete = true
permission_matrix PermissionLevel.update create = true
permission_matrix PermissionLevel.update read = true
permission_matrix PermissionLevel.update PermissionAction.update = true
permission_matrix PermissionLevel.update delete = false
permission_matrix view create = false
permission_matrix view read = true
permission_matrix view PermissionAction.update = false
permission_matrix view delete = false

-- `PermissionCheckResult`: `allowed: true`, or `allowed: false` with a reason.
pub data PermissionCheckResult : Type 0 where
  allowed : PermissionCheckResult
  denied : String → PermissionCheckResult

abbrev pub is_allowed : PermissionCheckResult → Bool
is_allowed allowed = true
is_allowed (denied reason) = false

abbrev role_permission : Option UserRole → ModuleType → Option Permission
role_permission none m = none
role_permission (some r) portfolio = r.portfolio_permission
role_permission (some r) property = r.property_permission
role_permission (some r) audit = r.audit_permission
role_permission (some r) user = r.user_permission
role_permission (some r) system_settings = r.system_settings_permission
role_permission (some r) bank_details = r.bank_details_permission
role_permission (some r) roles = r.roles_permission
role_permission (some r) access_logs = r.access_logs_permission

unfoldable pub get_module_permission : User → ModuleType → Option Permission
get_module_permission u m = role_permission u.role m

-- A `resourceId` that is given and not empty.
abbrev pub given : Option String → Option String
given none = none
given (some r) = if is_empty r then none else some r

-- `checkPermission`, once the module's permission is known.
abbrev check_level :
    Option Permission → ModuleType → PermissionAction → Option String → PermissionCheckResult
check_level none m a resource_id = denied ("No permission found for module: " ++ module_text m)
check_level (some p) m a resource_id =
    if is_no_access p.access_level
    then denied ("Access denied: No access to " ++ module_text m ++ " module")
    else if not (permission_matrix p.permission_level a)
    then denied (
        "Action '"
        ++ action_text a
        ++ "' not allowed with permission level '"
        ++ level_text p.permission_level
        ++ "'")
    else if is_all p.access_level
    then allowed
    else if is_partial p.access_level
    then (if not (is_some (given resource_id)) then allowed else allowed)
    else denied "Unknown permission configuration"

unfoldable pub check_permission :
    User → ModuleType → PermissionAction → Option String → PermissionCheckResult
unfolding permission_matrix
check_permission u m a resource_id = check_level (get_module_permission u m) m a resource_id

-- The columns of the user table that the service reads.
pub record UserRow : Type 0 where
  pub id : String
  pub invited_by_id : Option String

module _ (prisma : Prisma) (users : List UserRow) where
  -- `targetUser?.invited_by_id === user.id`
  abbrev invited_by : Option UserRow → String → Bool
  invited_by none id = false
  invited_by (some row) id = elim row.invited_by_id [
    | none ↦ false
    | some inviter ↦ str_eq inviter id
  ]

  unfoldable pub check_partial_access : User → ModuleType → String → Bool
  check_partial_access u m resource_id =
      if is_user_module m
      then invited_by (prisma.find_first (λ row. str_eq row.id resource_id) users) u.id
      else false

  -- The second half of `requirePermission`, for a check that passed.
  abbrev require_partial : Option Permission → User → ModuleType → Option String → Result (Unit {0})
  require_partial none u m rid = ok tt
  require_partial (some p) u m none = ok tt
  require_partial (some p) u m (some rid) =
      if is_partial p.access_level && not (check_partial_access u m rid)
      then err (
          error forbidden
            ("Access denied: Resource not in user's accessible " ++ module_text m ++ "s"))
      else ok tt

  abbrev require_checked :
      PermissionCheckResult → User → ModuleType → Option String → Result (Unit {0})
  require_checked (denied reason) u m rid = err (error forbidden reason)
  require_checked allowed u m rid = require_partial (get_module_permission u m) u m (given rid)

  unfoldable pub require_permission :
      User → ModuleType → PermissionAction → Option String → Result (Unit {0})
  unfolding check_permission
  require_permission u m a resource_id =
      require_checked (check_permission u m a resource_id) u m resource_id

  abbrev access_by : Option Permission → User → ModuleType → String → Bool
  access_by none u m rid = false
  access_by (some p) u m rid =
      if is_no_access p.access_level
      then false
      else if is_all p.access_level
      then true
      else check_partial_access u m rid

  unfoldable pub can_access_resource : User → ModuleType → String → Bool
  can_access_resource u m resource_id = access_by (get_module_permission u m) u m resource_id

-- `string[] | 'all'`
pub data ResourceIds : Type 0 where
  every_id : ResourceIds
  only : List String → ResourceIds

abbrev ids_by : Option Permission → ResourceIds
ids_by none = only []
ids_by (some p) =
    if is_no_access p.access_level
    then only []
    else if is_all p.access_level
    then every_id
    else only []

unfoldable pub get_accessible_resource_ids : User → ModuleType → ResourceIds
get_accessible_resource_ids u m = ids_by (get_module_permission u m)

unfoldable pub module_supports_partial_access : ModuleType → Bool
module_supports_partial_access m = is_user_module m

-- The loop of `validateRoleConfiguration`, one module at a time: its warnings, then the rest's.
pub data Warning : Type 0 where
  not_implemented users_can_create : ModuleType → Warning

abbrev pub permissions_of : UserRole → List (ModuleType × Option Permission)
permissions_of r =
    (portfolio, r.portfolio_permission)
    ∷ (property, r.property_permission)
    ∷ (audit, r.audit_permission)
    ∷ (user, r.user_permission)
    ∷ (system_settings, r.system_settings_permission)
    ∷ (bank_details, r.bank_details_permission)
    ∷ (roles, r.roles_permission)
    ∷ (access_logs, r.access_logs_permission)
    ∷ []

abbrev warn_if : Bool → Warning → List Warning → List Warning
warn_if true w rest = w ∷ rest
warn_if false w rest = rest

abbrev pub warnings_for : ModuleType → Option Permission → List Warning → List Warning
warnings_for m none rest = rest
warnings_for m (some p) rest =
    warn_if (is_partial p.access_level && not (module_supports_partial_access m))
      (not_implemented m)
      (warn_if
        (is_partial p.access_level && (is_full p.permission_level || is_update p.permission_level))
        (users_can_create m) rest)

unfoldable pub role_warnings : List (ModuleType × Option Permission) → List Warning
unfolding module_supports_partial_access
role_warnings [] = []
role_warnings ((m, p) ∷ rest) = warnings_for m p (role_warnings rest)

unfoldable pub validate_role_configuration : UserRole → List Warning
validate_role_configuration r = role_warnings (permissions_of r)
