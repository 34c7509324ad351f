-- ===== src/Permission/Guards.antt =====
-- What the two guards let through.
use vnp_dbms_backend.Common.{
  is_some, In, any_iff, and-eq-true_iff, String, ◌≡◌, refl, ◌↔◌, ◌≢◌, true, false, ◌&&◌, Option,
  none, some, arith, ok, List, inl, inr, eq-false_of_ne, ◌⊎◌, str_eq, eq_iff, Bool-cases,
}
use vnp_dbms_backend.Common.Prisma.{Prisma}
use vnp_dbms_backend.Permission.Types.{User, user, Permission, partial}
use vnp_dbms_backend.Permission.Service.{
  UserRow, permission_matrix, get_module_permission, require_permission, check_partial_access,
}
use vnp_dbms_backend.Permission.Guard.{PermissionMetadata, can_activate}
use vnp_dbms_backend.Permission.Project.{
  ProjectUser, ProjectType, ProjectRoleMetadata, all_access, everything, nothing,
  has_project_access, get_effective_role, get_project_accessible_resources, project_role_guard,
}

-- A user with a partial access to a module other than the user module, whose level has the action,
-- passes `PermissionGuard` with every resource id in the path, while `requirePermission` refuses
-- every resource id that is not empty: the guard alone protects no single resource.
pub can_activate-partial :
    (prisma : Prisma) (users : List UserRow) (u : User) (meta : PermissionMetadata) (p : Permission)
    (rid : String) (id portfolio_id : Option String)
    → get_module_permission u meta.module_type ≡ some p
    → p.access_level ≡ partial
    → permission_matrix p.permission_level meta.action ≡ true
    → meta.module_type ≢ user
    → rid ≢ ""
    → (can_activate
          (some meta)
          (record { user = some u; param_id = id; param_portfolio_id = portfolio_id })
        ≡ ok true)
      × (require_permission prisma users u meta.module_type meta.action (some rid) ≢ ok tt)
unfolding can_activate require_permission check_partial_access
can_activate-partial prisma users u meta p rid id portfolio_id e level matrix other h =
    (ground arith, λ x. ground (arith, eq-false_of_ne rid "" h))

-- A project is accessible exactly when the user has an effective role in it; the user has access to it or no
-- resource of it is accessible; and the base role has no `all` access to portfolios or
-- properties, or every resource of the project is accessible and so is the project.
pub resources_by_access :
    (u : ProjectUser) (t : ProjectType)
    → (has_project_access u t ≡ is_some (get_effective_role u (some t)))
      × ((has_project_access u t ≡ true) ⊎ (get_project_accessible_resources u t ≡ nothing))
      × ((all_access u.role ≡ false)
          ⊎ ((get_project_accessible_resources u t ≡ everything) × (has_project_access u t ≡ true)))
unfolding has_project_access get_effective_role get_project_accessible_resources
resources_by_access u t = (
  ground arith,
  elim (Bool-cases (has_project_access u t)) [
    | inl h ↦ inl (ground arith)
    | inr h ↦ inr (ground arith)
  ],
  elim (Bool-cases (all_access u.role)) [
    | inr h ↦ inl h
    | inl h ↦ inr (ground arith, ground arith)
  ],
)

-- Whom `ProjectRoleGuard` means to admit.
abbrev pub IsAdmitted : ProjectRoleMetadata → ProjectUser → Type 0
IsAdmitted m v =
    ((m.allow_super_admin ≡ true) × (v.role.name ≡ "Super Admin"))
    ⊎ ((all_access v.role ≡ true)
        ⊎ ((t : ProjectType) × In t m.project_types × (has_project_access v t ≡ true)))

project_role_guard-IsAdmitted :
    (m : ProjectRoleMetadata) (v : ProjectUser)
    → project_role_guard (some m) (some v) ≡ ok true
    → IsAdmitted m v
unfolding project_role_guard
project_role_guard-IsAdmitted m v h =
    elim (Bool-cases (m.allow_super_admin && str_eq v.role.name "Super Admin")) [
      | inl super ↦
          let (allows, named) = (and-eq-true_iff _ _).0 super in inl (allows, (eq_iff _ _).0 named)
      | inr other ↦ elim (Bool-cases (all_access v.role)) [
        | inl wide ↦ inr (inl wide)
        | inr narrow ↦ inr (inr ((any_iff (has_project_access v) m.project_types).0 (ground arith)))
      ]
    ]

IsAdmitted-project_role_guard :
    (m : ProjectRoleMetadata) (v : ProjectUser)
    → IsAdmitted m v
    → project_role_guard (some m) (some v) ≡ ok true
unfolding project_role_guard
IsAdmitted-project_role_guard m v (inl (allows, named)) =
    ground (arith, eq_iff v.role.name "Super Admin")
IsAdmitted-project_role_guard m v (inr (inl wide)) = ground arith
IsAdmitted-project_role_guard m v (inr (inr found)) =
    ground (arith, (any_iff (has_project_access v) m.project_types).1 found)

-- `ProjectRoleGuard` lets every request through where the route has no metadata. Where it has, a
-- request with no user is refused, and one with a user passes exactly when that user is a super
-- administrator by role name and the route allows those, or has an `all` access to portfolios or
-- properties in the base role, or has access to one of the route's project types.
pub project_role_guard_iff :
    (m : ProjectRoleMetadata) (u : Option ProjectUser) (v : ProjectUser)
    → (project_role_guard none u ≡ ok true)
      × (project_role_guard (some m) none ≢ ok true)
      × ((project_role_guard (some m) (some v) ≡ ok true) ↔ IsAdmitted m v)
unfolding project_role_guard
project_role_guard_iff m u v =
    (refl, λ e. cc, (project_role_guard-IsAdmitted m v, IsAdmitted-project_role_guard m v))
