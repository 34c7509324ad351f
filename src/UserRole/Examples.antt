-- ===== src/UserRole/Examples.antt =====
-- Removing roles of a small table.
use vnp_dbms_backend.Common.{
  ◌≡◌, refl, sym, ap, inl, inr, true, false, none, [], ◌∷◌, str_eq, here, In-cases, not-In-nil,
  error, err, bad_request,
}
use vnp_dbms_backend.Common.Prisma.{scanning}
use vnp_dbms_backend.UserRole.Service.{Role, Account, Db, Call, run, remove, find_one, find_by_id}
use vnp_dbms_backend.UserRole.Assigned.{RolesExist, run-RolesExist}

abbrev clerk : Role
clerk = record {
  id = "c";
  name = "Clerk";
  is_external = false;
  permissions = [];
  user_column_template_id = none;
  order = 1;
}

abbrev guest : Role
guest = record {
  id = "g";
  name = "Guest";
  is_external = true;
  permissions = [];
  user_column_template_id = none;
  order = 2;
}

abbrev ann : Account
ann = record { id = "a"; password = "secret"; user_role_id = "c" }

abbrev table : Db
table = record { roles = clerk ∷ guest ∷ []; users = ann ∷ []; column_templates = [] }

RolesExist-table : RolesExist table
RolesExist-table u at = elim (In-cases at) [
  | inl is ↦ (clerk, here, ap (λ x. x.user_role_id) (sym is))
  | inr gone ↦ absurd (not-In-nil gone)
]

run-RolesExist_example :
    RolesExist (run scanning (λ a b. str_eq a b) (Call.removes "g" "secret" "a") table)
run-RolesExist_example =
    run-RolesExist scanning (λ a b. str_eq a b) (Call.removes "g" "secret" "a") table
      RolesExist-table

guest_removed :
    (run scanning (λ a b. str_eq a b) (Call.removes "g" "secret" "a") table).roles ≡ clerk ∷ []
unfolding run remove find_one find_by_id
guest_removed = refl

clerk_kept : remove scanning (λ a b. str_eq a b) "c" "secret" "a" table ≡ (
  err (
      error bad_request "Cannot delete role with assigned users. Please reassign the users first."),
  table,
)
unfolding remove find_one find_by_id
clerk_kept = refl
