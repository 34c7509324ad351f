-- ===== src/Permission/Checks.antt =====
-- What the permission service lets through.
use vnp_dbms_backend.Common.{
  In, String, ◌≡◌, refl, ap, ◌↔◌, ◌≢◌, Bool, true, false, Option, none, some, arith, ok, str_eq,
  eq_iff, inl, inr, eq-false_of_ne, Option-cases, List,
}
use vnp_dbms_backend.Common.Prisma.{Prisma}
use vnp_dbms_backend.Permission.Types.{
  partial, no_access, PermissionAction, ModuleType, user, Permission, User,
}
use vnp_dbms_backend.Permission.Service.{
  UserRow, is_allowed, permission_matrix, get_module_permission, check_permission,
  require_permission, can_access_resource, check_partial_access,
}

-- `checkPermission` allows an action exactly when the user's role holds a permission for the
-- module whose access level is not `none` and whose permission level has the action in the matrix.
pub check_permission-allowed_iff :
    (u : User) (m : ModuleType) (a : PermissionAction) (rid : Option String)
    → (is_allowed (check_permission u m a rid) ≡ true) ↔ (
        (p : Permission) × (get_module_permission u m ≡ some p)
        × (p.access_level ≢ no_access)
        × (permission_matrix p.permission_level a ≡ true))
unfolding check_permission
check_permission-allowed_iff u m a rid = elim (Option-cases (get_module_permission u m)) [
  | inl e ↦ rw e (λ h. cc, λ (p, at, _, _). cc)
  | inr (p, e) ↦
      rw e
        (λ h. (p, refl, ground arith, ground arith), λ (q, at, open_level, permitted). ground arith)
]

-- For a resource id that is not empty, `requirePermission` returns without throwing exactly when
-- `canAccessResource` grants the resource and the permission level has the action in the matrix.
pub require_permission-iff-access :
    (prisma : Prisma) (users : List UserRow) (u : User) (m : ModuleType) (a : PermissionAction)
    (rid : String)
    → rid ≢ ""
    → (require_permission prisma users u m a (some rid) ≡ ok tt) ↔ (
        (can_access_resource prisma users u m rid ≡ true)
        × (is_allowed (check_permission u m a (some rid)) ≡ true))
unfolding require_permission can_access_resource
require_permission-iff-access prisma users u m a rid h =
    elim (Option-cases (get_module_permission u m)) [
      | inl e ↦ rw e (λ x. cc, λ x. cc)
      | inr (p, e) ↦ rw e (
        λ x. ground (arith, eq-false_of_ne rid "" h),
        λ x. ground (arith, eq-false_of_ne rid "" h),
      )
    ]

partial-is_user :
    (prisma : Prisma) (users : List UserRow) (u : User) (m : ModuleType) (rid : String)
    → check_partial_access prisma users u m rid ≡ true
    → m ≡ user
unfolding check_partial_access
partial-is_user prisma users u m rid h = ground arith

abbrev invites : Option String → String → Bool
invites none id = false
invites (some inviter) id = str_eq inviter id

eq-some_of_invites : (o : Option String) (id : String) → invites o id ≡ true → o ≡ some id
eq-some_of_invites none id h = cc
eq-some_of_invites (some inviter) id h = ap some ((eq_iff inviter id).0 h)

invited-row :
    (prisma : Prisma) (users : List UserRow) (u : User) (rid : String)
    → check_partial_access prisma users u user rid ≡ true
    → (row : UserRow) × In row users × (row.id ≡ rid) × (row.invited_by_id ≡ some u.id)
unfolding check_partial_access
invited-row prisma users u rid h =
    elim (Option-cases (prisma.find_first (λ row. str_eq row.id rid) users)) [
      | inl e ↦ cc (rw e at h)
      | inr (row, e) ↦
          let (at, same) = prisma.found_in (λ row. str_eq row.id rid) users e in
          (
            row,
            at,
            (eq_iff row.id rid).0 same,
            eq-some_of_invites row.invited_by_id u.id (ground (arith, e)),
          )
    ]

-- What `requirePermission` has established when it returns for a resource that a partial access
-- covers: the module is the user module, and a user with that id was invited by the caller.
pub require_permission-partial :
    (prisma : Prisma) (users : List UserRow) (u : User) (m : ModuleType) (a : PermissionAction)
    (rid : String) (p : Permission)
    → rid ≢ ""
    → get_module_permission u m ≡ some p
    → p.access_level ≡ partial
    → require_permission prisma users u m a (some rid) ≡ ok tt
    → (m ≡ user) × (row : UserRow) × In row users × (row.id ≡ rid) × (row.invited_by_id ≡ some u.id)
unfolding require_permission
require_permission-partial prisma users u m a rid p h e level passed =
    let granted : check_partial_access prisma users u m rid ≡ true =
      ground (arith, eq-false_of_ne rid "" h) in
    let is_user : m ≡ user = partial-is_user prisma users u m rid granted in
    let (row, at, same, inviter) = invited-row prisma users u rid (rw is_user at granted) in
    (is_user, row, at, same, inviter)
