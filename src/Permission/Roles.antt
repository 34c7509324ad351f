-- ===== src/Permission/Roles.antt =====
-- Super administrators, and the warnings about a role's configuration.
use vnp_dbms_backend.Common.{
  In, here, there, In-cases, not-In-nil, String, ◌≡◌, refl, ap, sym, ◌↔◌, true, Option, none, some,
  arith, ok, List, [], ◌∷◌, inl, inr,
}
use vnp_dbms_backend.Common.Prisma.{Prisma}
use vnp_dbms_backend.Permission.Types.{
  full, view, all, partial, PermissionAction, ModuleType, portfolio, user, UserRole, User,
  Permission,
}
use vnp_dbms_backend.Permission.Util.{is_user_super_admin}
use vnp_dbms_backend.Permission.Service.{
  UserRow, Warning, module_supports_partial_access, permission_matrix, warnings_for,
  get_module_permission, require_permission, get_accessible_resource_ids, every_id, permissions_of,
  role_warnings, validate_role_configuration,
}

super_admin-permission :
    (u : User) (m : ModuleType)
    → is_user_super_admin u ≡ true
    → get_module_permission u m ≡ some (record { permission_level = full; access_level = all })
unfolding is_user_super_admin get_module_permission
super_admin-permission u portfolio h = ground arith
super_admin-permission u m h = ground arith

-- A super administrator passes `requirePermission` for every module, action and resource, and has
-- access to every resource of every module.
pub super_admin-unrestricted :
    (prisma : Prisma) (users : List UserRow) (u : User) (m : ModuleType) (a : PermissionAction)
    (rid : Option String)
    → is_user_super_admin u ≡ true
    → (require_permission prisma users u m a rid ≡ ok tt)
      × (get_accessible_resource_ids u m ≡ every_id)
unfolding require_permission permission_matrix get_accessible_resource_ids
super_admin-unrestricted prisma users u m a rid h =
    (ground (arith, super_admin-permission u m h), ground (arith, super_admin-permission u m h))

-- What a partial access must be for the loop to say nothing about it.
abbrev Quiet : ModuleType → Option Permission → Type 0
Quiet m q =
    (p : Permission)
    → q ≡ some p
    → p.access_level ≡ partial
    → (m ≡ user) × (p.permission_level ≡ view)

warnings_for-eq-nil :
    (m : ModuleType) (q : Option Permission) (rest : List Warning)
    → (warnings_for m q rest ≡ []) ↔ (Quiet m q × (rest ≡ []))
unfolding module_supports_partial_access
warnings_for-eq-nil m none rest = (λ e. (λ p at level. cc, e), λ h. h.1)
warnings_for-eq-nil m (some x) rest =
    (λ e. (λ p at level. ground arith, ground arith), λ h. ground (arith, h.0 x refl))

role_warnings-eq-nil :
    (l : List (ModuleType × Option Permission))
    → (role_warnings l ≡ []) ↔ (
        (m : ModuleType) (p : Permission)
        → In (m, some p) l
        → p.access_level ≡ partial
        → (m ≡ user) × (p.permission_level ≡ view))
unfolding role_warnings
role_warnings-eq-nil [] = (λ e m p i. absurd (not-In-nil i), λ h. refl)
role_warnings-eq-nil ((m, q) ∷ rest) =
    let (to, from) = warnings_for-eq-nil m q (role_warnings rest) in
    let (to_rest, from_rest) = role_warnings-eq-nil rest in
    (
      λ e m' p i level. elim (In-cases i) [
        | inl same ↦
            let is_m : m' ≡ m = ap (λ x. x.0) same in
            let is_q : q ≡ some p = sym (ap (λ x. x.1) same) in rw is_m ((to e).0 p is_q level)
        | inr later ↦ to_rest (to e).1 m' p later level
      ],
      λ h. from (
        λ p is_q level. h m p (rw is_q here) level,
        from_rest (λ m' p i level. h m' p (there i) level),
      ),
    )

-- `validateRoleConfiguration` is silent exactly when every partial access of the role is a
-- read-only one on the user module.
pub validate_role_configuration-eq-nil :
    (r : UserRole)
    → (validate_role_configuration r ≡ []) ↔ (
        (m : ModuleType) (p : Permission)
        → In (m, some p) (permissions_of r)
        → p.access_level ≡ partial
        → (m ≡ user) × (p.permission_level ≡ view))
unfolding validate_role_configuration
validate_role_configuration-eq-nil r = role_warnings-eq-nil (permissions_of r)
