-- ===== src/Permission/Util.antt =====
-- src/common/utils/permission.util.ts
use Prim.Native.String.{◌++◌}
use vnp_dbms_backend.Common.{
  String, Bool, true, false, not, ◌&&◌, Option, none, some, List, [], ◌∷◌, every, str_eq,
  if◌then◌else◌,
}
use vnp_dbms_backend.Permission.Types.{
  PermissionLevel, full, view, AccessLevel, all, partial, no_access, PermissionAction, create, read,
  delete, Permission, UserRole, User, is_all, is_partial, is_no_access, is_full,
}

unfoldable pub can_perform_action : PermissionLevel → PermissionAction → Bool
can_perform_action full _ = true
can_perform_action PermissionLevel.update create = true
can_perform_action PermissionLevel.update read = true
can_perform_action PermissionLevel.update PermissionAction.update = true
can_perform_action PermissionLevel.update delete = false
can_perform_action view create = false
can_perform_action view read = true
can_perform_action view PermissionAction.update = false
can_perform_action view delete = false

unfoldable pub has_any_access : Option Permission → Bool
has_any_access none = false
has_any_access (some p) = not (is_no_access p.access_level)

unfoldable pub has_full_access : Option Permission → Bool
has_full_access none = false
has_full_access (some p) = is_all p.access_level

unfoldable pub requires_partial_check : Option Permission → Bool
requires_partial_check none = false
requires_partial_check (some p) = is_partial p.access_level

-- `if (test) actions.push(action)`, with the pushes that follow
abbrev push_if : Bool → PermissionAction → List PermissionAction → List PermissionAction
push_if true a rest = a ∷ rest
push_if false a rest = rest

unfoldable pub get_allowed_actions : PermissionLevel → List PermissionAction
unfolding can_perform_action
get_allowed_actions l = push_if (can_perform_action l create) create (
    push_if (can_perform_action l read) read (
      push_if (can_perform_action l PermissionAction.update) PermissionAction.update
        (push_if (can_perform_action l delete) delete [])))

-- The common shape of `canCreate`, `canRead`, `canUpdate` and `canDelete`.
abbrev permits : Option Permission → PermissionAction → Bool
permits none a = false
permits (some p) a = has_any_access (some p) && can_perform_action p.permission_level a

unfoldable pub can_create : Option Permission → Bool
unfolding has_any_access can_perform_action
can_create p = permits p create

unfoldable pub can_read : Option Permission → Bool
unfolding has_any_access can_perform_action
can_read p = permits p read

unfoldable pub can_update : Option Permission → Bool
unfolding has_any_access can_perform_action
can_update p = permits p PermissionAction.update

unfoldable pub can_delete : Option Permission → Bool
unfolding has_any_access can_perform_action
can_delete p = permits p delete

unfoldable pub get_permission_description : Option Permission → String
get_permission_description none = "No permission"
get_permission_description (some p) =
    level_desc p.permission_level ++ " on " ++ access_desc p.access_level
  where
    level_desc : PermissionLevel → String
    level_desc full = "Full CRUD"
    level_desc PermissionLevel.update = "Create, Read, Update"
    level_desc view = "Read only"

    access_desc : AccessLevel → String
    access_desc all = "all resources"
    access_desc partial = "assigned resources only"
    access_desc no_access = "no resources"

unfoldable pub is_super_admin : Option Permission → Bool
is_super_admin none = false
is_super_admin (some p) = is_full p.permission_level && is_all p.access_level

-- The eight permissions of a role, in the order of the source.
abbrev pub all_permissions : UserRole → List (Option Permission)
all_permissions r =
    r.portfolio_permission ∷ r.property_permission ∷ r.audit_permission ∷ r.user_permission
    ∷ r.system_settings_permission ∷ r.bank_details_permission ∷ r.roles_permission
    ∷ r.access_logs_permission ∷ []

abbrev super_admin_role : Option UserRole → Bool
super_admin_role none = false
super_admin_role (some r) = every is_super_admin (all_permissions r)

unfoldable pub is_user_super_admin : User → Bool
unfolding is_super_admin
is_user_super_admin u = super_admin_role u.role

abbrev external_role : Option UserRole → Bool
external_role none = false
external_role (some r) = r.is_external

unfoldable pub is_external_user : User → Bool
is_external_user u = external_role u.role

abbrev internal_role : Option UserRole → Bool
internal_role none = false
internal_role (some r) = not r.is_external

unfoldable pub is_internal_user : User → Bool
is_internal_user u = internal_role u.role

abbrev role_permission : Option UserRole → String → Option Permission
role_permission none key = none
role_permission (some r) key =
    if str_eq key "portfolio"
    then r.portfolio_permission
    else if str_eq key "property"
    then r.property_permission
    else if str_eq key "audit"
    then r.audit_permission
    else if str_eq key "user"
    then r.user_permission
    else if str_eq key "system_settings"
    then r.system_settings_permission
    else if str_eq key "bank_details"
    then r.bank_details_permission
    else if str_eq key "roles"
    then r.roles_permission
    else if str_eq key "access_logs"
    then r.access_logs_permission
    else none

unfoldable pub get_module_permission : User → String → Option Permission
get_module_permission u key = role_permission u.role key
