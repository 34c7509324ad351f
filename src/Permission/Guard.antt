-- ===== src/Permission/Guard.antt =====
-- src/common/guards/permission.guard.ts, with the metadata of
-- src/common/decorators/require-permission.decorator.ts.
use vnp_dbms_backend.Common.{
  String, Bool, true, Option, none, some, if◌then◌else◌, Result, ok, err, error, forbidden,
}
use vnp_dbms_backend.Permission.Types.{PermissionAction, ModuleType, User}
use vnp_dbms_backend.Permission.Service.{
  PermissionCheckResult, allowed, denied, given, check_permission,
}

pub record PermissionMetadata : Type 0 where
  pub module_type : ModuleType
  pub action : PermissionAction
  pub use_resource_id : Bool

-- The part of the request that the guard reads.
pub record Request : Type 0 where
  pub user : Option User
  pub param_id : Option String
  pub param_portfolio_id : Option String

-- `a || b`, for texts that may be missing
abbrev or_else : Option String → Option String → Option String
or_else a b = elim (given a) [ none ↦ b | some x ↦ some x ]

abbrev resource_id : PermissionMetadata → Request → Option String
resource_id m r = if m.use_resource_id then or_else r.param_id r.param_portfolio_id else none

abbrev enforce : PermissionCheckResult → Result Bool
enforce allowed = ok true
enforce (denied reason) = err (error forbidden reason)

abbrev activate_user : PermissionMetadata → Option User → Option String → Result Bool
activate_user m none rid = err (error forbidden "User not authenticated")
activate_user m (some u) rid = enforce (check_permission u m.module_type m.action rid)

abbrev activate : Option PermissionMetadata → Request → Result Bool
activate none r = ok true
activate (some m) r = activate_user m r.user (resource_id m r)

unfoldable pub can_activate : Option PermissionMetadata → Request → Result Bool
unfolding check_permission
can_activate permission r = activate permission r
