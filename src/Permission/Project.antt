-- ===== src/Permission/Project.antt =====
-- src/common/utils/project-context.util.ts and src/common/guards/project-role.guard.ts
use vnp_dbms_backend.Common.{
  String, Bool, true, false, ◌&&◌, ◌||◌, Option, none, some, List, [], any, find, get_or, is_some,
  if◌then◌else◌, str_eq, Result, ok, err, error, forbidden,
}
use vnp_dbms_backend.Permission.Types.{UserRole, grants_all}
use vnp_dbms_backend.Permission.Service.{ResourceIds, every_id, only}

-- `ProjectType` of prisma/schema.prisma
pub data ProjectType : Type 0 where
  dbms dashboard parser : ProjectType

abbrev pub same_project : ProjectType → ProjectType → Bool
same_project dbms dbms = true
same_project dashboard dashboard = true
same_project parser parser = true
same_project _ _ = false

-- An entry of `projectRoles`. The ids may be missing in old documents (`|| []`).
pub record ProjectRole : Type 0 where
  pub project_type : ProjectType
  pub user_role_id : String
  pub user_role : UserRole
  pub portfolio_ids : Option (List String)
  pub subportfolio_ids : Option (List String)
  pub property_ids : Option (List String)
  pub is_active : Bool

-- `IUserWithProjectRole`: here the base role is always there.
pub record ProjectUser : Type 0 where
  pub id : String
  pub role : UserRole
  pub project_roles : Option (List ProjectRole)

abbrev pub all_access : UserRole → Bool
all_access r = grants_all r.portfolio_permission || grants_all r.property_permission

-- `user.projectRoles?.find(pr => pr.project_type === projectType && pr.is_active)`
abbrev pub active_role : ProjectUser → ProjectType → Option ProjectRole
active_role u t =
    find (λ pr. same_project pr.project_type t && pr.is_active) (get_or u.project_roles [])

abbrev pub role_of : Option ProjectRole → Option UserRole
role_of none = none
role_of (some pr) = some pr.user_role

unfoldable pub get_effective_role : ProjectUser → Option ProjectType → Option UserRole
get_effective_role u none = some u.role
get_effective_role u (some t) =
    if same_project t dbms
    then some u.role
    else if all_access u.role
    then some u.role
    else role_of (active_role u t)

unfoldable pub has_project_access : ProjectUser → ProjectType → Bool
has_project_access u t =
    if same_project t dbms
    then true
    else if all_access u.role
    then true
    else is_some (active_role u t)

pub record AccessibleResources : Type 0 where
  pub portfolio_ids : ResourceIds
  pub subportfolio_ids : ResourceIds
  pub property_ids : ResourceIds

abbrev pub everything : AccessibleResources
everything = record {
  portfolio_ids = every_id;
  subportfolio_ids = every_id;
  property_ids = every_id;
}

abbrev pub nothing : AccessibleResources
nothing = record { portfolio_ids = only []; subportfolio_ids = only []; property_ids = only [] }

abbrev resources_of : Option ProjectRole → AccessibleResources
resources_of none = nothing
resources_of (some pr) = if all_access pr.user_role then everything else record {
  portfolio_ids = only (get_or pr.portfolio_ids []);
  subportfolio_ids = only (get_or pr.subportfolio_ids []);
  property_ids = only (get_or pr.property_ids []);
}

unfoldable pub get_project_accessible_resources : ProjectUser → ProjectType → AccessibleResources
get_project_accessible_resources u t =
    if all_access u.role then everything else resources_of (active_role u t)

-- src/common/decorators/require-project-role.decorator.ts
pub record ProjectRoleMetadata : Type 0 where
  pub project_types : List ProjectType
  pub allow_super_admin : Bool

abbrev admit_user : ProjectRoleMetadata → Option ProjectUser → Result Bool
admit_user m none = err (error forbidden "User not authenticated")
admit_user m (some u) =
    if m.allow_super_admin && str_eq u.role.name "Super Admin"
    then ok true
    else if all_access u.role
    then ok true
    else if any (has_project_access u) m.project_types
    then ok true
    else err (error forbidden "Access denied. Required project role")

abbrev admit : Option ProjectRoleMetadata → Option ProjectUser → Result Bool
admit none u = ok true
admit (some m) u = admit_user m u

-- The guard's `canActivate`. The list of the required types is left out of the message.
unfoldable pub project_role_guard : Option ProjectRoleMetadata → Option ProjectUser → Result Bool
project_role_guard metadata u = admit metadata u
