-- ===== src/Permission/Actions.antt =====
-- The helpers of permission.util.ts against the service.
use vnp_dbms_backend.Common.{
  In, here, there, String, ◌≡◌, refl, ◌↔◌, true, Option, arith, Option-cases, inl, inr,
}
use vnp_dbms_backend.Permission.Types.{
  full, view, PermissionAction, create, read, update, delete, ModuleType, portfolio, User,
  module_text, PermissionLevel,
}
use vnp_dbms_backend.Permission.Util
use vnp_dbms_backend.Permission.Util.{
  can_perform_action, get_allowed_actions, can_create, can_read, can_update, can_delete,
}
use vnp_dbms_backend.Permission.Service.{
  is_allowed, permission_matrix, get_module_permission, check_permission,
}

can_perform_action-eq-matrix :
    (l : PermissionLevel) (a : PermissionAction) → can_perform_action l a ≡ permission_matrix l a
unfolding can_perform_action permission_matrix
can_perform_action-eq-matrix full create = refl
can_perform_action-eq-matrix l a = ground arith

get_module_permission-eq :
    (u : User) (m : ModuleType)
    → Util.get_module_permission u (module_text m) ≡ get_module_permission u m
unfolding Util.get_module_permission get_module_permission
get_module_permission-eq u portfolio = ground arith
get_module_permission-eq u m = ground arith

-- The string-keyed helpers and the service agree: `canCreate`, `canRead`, `canUpdate` and
-- `canDelete` of a module's permission, looked up by the module's text, are the verdicts of
-- `checkPermission` for that module, whatever the resource id.
pub can-eq-check_permission :
    (u : User) (m : ModuleType) (rid : Option String)
    → let p = Util.get_module_permission u (module_text m) in
      (can_create p ≡ is_allowed (check_permission u m create rid))
      × (can_read p ≡ is_allowed (check_permission u m read rid))
      × (can_update p ≡ is_allowed (check_permission u m update rid))
      × (can_delete p ≡ is_allowed (check_permission u m delete rid))
unfolding can_create can_read can_update can_delete check_permission
can-eq-check_permission u m rid =
    rw (get_module_permission-eq u m) (elim (Option-cases (get_module_permission u m)) [
      | inl e ↦ rw e (refl, refl, refl, refl)
      | inr (p, e) ↦ rw e (
        ground (arith, can_perform_action-eq-matrix p.permission_level create),
        ground (arith, can_perform_action-eq-matrix p.permission_level read),
        ground (arith, can_perform_action-eq-matrix p.permission_level update),
        ground (arith, can_perform_action-eq-matrix p.permission_level delete),
      )
    ])

allowed-In :
    (l : PermissionLevel) {a : PermissionAction}
    → In a (get_allowed_actions l)
    → can_perform_action l a ≡ true
unfolding get_allowed_actions
allowed-In full i = refl
allowed-In PermissionLevel.update here = refl
allowed-In PermissionLevel.update (there here) = refl
allowed-In PermissionLevel.update (there (there here)) = refl
allowed-In PermissionLevel.update (there (there (there i))) = elim i [ ]
allowed-In view here = refl
allowed-In view (there i) = elim i [ ]

In-allowed :
    (l : PermissionLevel) (a : PermissionAction)
    → can_perform_action l a ≡ true
    → In a (get_allowed_actions l)
unfolding get_allowed_actions
In-allowed full create h = here
In-allowed full read h = there here
In-allowed full PermissionAction.update h = there (there here)
In-allowed full delete h = there (there (there here))
In-allowed PermissionLevel.update create h = here
In-allowed PermissionLevel.update read h = there here
In-allowed PermissionLevel.update PermissionAction.update h = there (there here)
In-allowed PermissionLevel.update delete h = cc
In-allowed view read h = here
In-allowed view _ h = cc

-- `getAllowedActions` lists exactly the actions that the permission level allows.
pub get_allowed_actions_iff :
    (l : PermissionLevel) (a : PermissionAction)
    → In a (get_allowed_actions l) ↔ (can_perform_action l a ≡ true)
get_allowed_actions_iff l a = (allowed-In l, In-allowed l a)
