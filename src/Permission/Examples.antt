-- ===== src/Permission/Examples.antt =====
-- The theorems at concrete inputs.
use vnp_dbms_backend.Common.{
  String, ◌≡◌, ◌≢◌, ◌↔◌, refl, true, false, Option, none, some, List, [], ◌∷◌, ok, In,
}
use vnp_dbms_backend.Common.Prisma.{scanning}
use vnp_dbms_backend.Permission.Types.{
  PermissionLevel, full, view, AccessLevel, all, partial, no_access, read, property, user,
  Permission, UserRole, User,
}
use vnp_dbms_backend.Permission.Util.{is_user_super_admin}
use vnp_dbms_backend.Permission.Service.{
  UserRow, is_allowed, permission_matrix, get_module_permission, check_permission,
  check_partial_access, require_permission, can_access_resource,
}
use vnp_dbms_backend.Permission.Guard.{PermissionMetadata}
use vnp_dbms_backend.Permission.Project.{ProjectUser, dashboard, parser, ProjectRoleMetadata}
use vnp_dbms_backend.Permission.Checks.{
  check_permission-allowed_iff, require_permission-iff-access, require_permission-partial,
}

abbrev grant : PermissionLevel → AccessLevel → Option Permission
grant l a = some (record { permission_level = l; access_level = a })

abbrev full_role : UserRole
full_role = record {
  id = "r0";
  name = "Super Admin";
  is_external = false;
  can_access_mis = true;
  portfolio_permission = grant full all;
  property_permission = grant full all;
  audit_permission = grant full all;
  user_permission = grant full all;
  system_settings_permission = grant full all;
  bank_details_permission = grant full all;
  roles_permission = grant full all;
  access_logs_permission = grant full all;
}

-- A role with partial accesses to users and to properties.
abbrev desk_role : UserRole
desk_role = record {
  id = "r1";
  name = "Desk";
  is_external = true;
  can_access_mis = false;
  portfolio_permission = none;
  property_permission = grant view partial;
  audit_permission = grant view no_access;
  user_permission = grant view partial;
  system_settings_permission = none;
  bank_details_permission = none;
  roles_permission = none;
  access_logs_permission = none;
}

abbrev boss : User
boss = record { id = "u0"; email = "boss@vnp.com"; user_role_id = "r0"; role = some full_role }

abbrev clerk : User
clerk = record { id = "u1"; email = "clerk@vnp.com"; user_role_id = "r1"; role = some desk_role }

abbrev two_rows : List UserRow
two_rows =
    record { id = "u1"; invited_by_id = some "u0" }
    ∷ record { id = "u2"; invited_by_id = some "u1" }
    ∷ []

check_permission-allowed_iff_example :
    (is_allowed (check_permission clerk property read none) ≡ true) ↔ (
      (p : Permission) × (get_module_permission clerk property ≡ some p)
      × (p.access_level ≢ no_access)
      × (permission_matrix p.permission_level read ≡ true))
check_permission-allowed_iff_example = check_permission-allowed_iff clerk property read none

abbrev target : String
target = "u2"

filled : target ≢ ""
filled e = cc

require_permission-iff-access_example :
    (require_permission scanning two_rows clerk user read (some "u2") ≡ ok tt) ↔ (
      (can_access_resource scanning two_rows clerk user "u2" ≡ true)
      × (is_allowed (check_permission clerk user read (some "u2")) ≡ true))
require_permission-iff-access_example =
    require_permission-iff-access scanning two_rows clerk user read "u2" filled

desk_user : get_module_permission clerk user ≡ grant view partial
unfolding get_module_permission
desk_user = refl

desk_property : get_module_permission clerk property ≡ grant view partial
unfolding get_module_permission
desk_property = refl

clerk_reads : require_permission scanning two_rows clerk user read (some "u2") ≡ ok tt
unfolding require_permission get_module_permission check_partial_access
clerk_reads = refl

require_permission-partial_example :
    (user ≡ user)
    × (row : UserRow) × In row two_rows
    × (row.id ≡ "u2")
    × (row.invited_by_id ≡ some "u1")
require_permission-partial_example =
    require_permission-partial scanning two_rows clerk user read "u2"
      (record { permission_level = view; access_level = partial }) filled desk_user refl clerk_reads

boss_is_super : is_user_super_admin boss ≡ true
unfolding is_user_super_admin
boss_is_super = refl

abbrev reads_property : PermissionMetadata
reads_property = record { module_type = property; action = read; use_resource_id = true }

view_reads : permission_matrix view read ≡ true
unfolding permission_matrix
view_reads = refl

property-ne-user : property ≢ user
property-ne-user e = cc

-- A user with one active role, in the dashboard.
abbrev member : ProjectUser
member = record {
  id = "u1";
  role = desk_role;
  project_roles = some (
      record {
        project_type = dashboard;
        user_role_id = "r1";
        user_role = desk_role;
        portfolio_ids = some ("p1" ∷ []);
        subportfolio_ids = none;
        property_ids = some ("q1" ∷ []);
        is_active = true;
      }
      ∷ []);
}

abbrev dashboard_route : ProjectRoleMetadata
dashboard_route = record { project_types = parser ∷ dashboard ∷ []; allow_super_admin = true }
