-- ===== src/ProjectRole/Examples.antt =====
-- The theorems at concrete inputs.
use vnp_dbms_backend.Common.{
  String, ◌≡◌, ◌≢◌, ◌↔◌, ◌⊎◌, refl, true, false, none, some, List, [], ◌∷◌, ◌++◌, map, ok, err,
  error, forbidden, In, All, Distinct, if◌then◌else◌, ne_of_eq-false,
}
use vnp_dbms_backend.Common.Prisma.{scanning}
use vnp_dbms_backend.Permission.Types.{full, all, UserRole, User}
use vnp_dbms_backend.Permission.Project.{dashboard, parser}
use vnp_dbms_backend.Permission.Util
use vnp_dbms_backend.ProjectRole.Store
use vnp_dbms_backend.ProjectRole.Store.{Db, Document, ProjectRole, UserProjectRole, has_id, has_key}
use vnp_dbms_backend.ProjectRole.Service
use vnp_dbms_backend.ProjectRole.Service.{
  CreateDto, Resources, reassigned, is_admin, run, creates, removes,
}
use vnp_dbms_backend.ProjectRole.Access.{not_admin-refused}
use vnp_dbms_backend.ProjectRole.Ids.{named, with_ids, add_access_lem}
use vnp_dbms_backend.ProjectRole.Keys.{UniqueKeys, run-UniqueKeys}
use vnp_dbms_backend.ProjectRole.Assign.{Fits, create-ok, assign_project_role-existing}

-- A role that manages users, and one that may do nothing.
abbrev manager_role : UserRole
manager_role = record {
  id = "r0";
  name = "Manager";
  is_external = false;
  can_access_mis = false;
  portfolio_permission = none;
  property_permission = none;
  audit_permission = none;
  user_permission = some (record { permission_level = full; access_level = all });
  system_settings_permission = none;
  bank_details_permission = none;
  roles_permission = none;
  access_logs_permission = none;
}

abbrev idle_role : UserRole
idle_role = record manager_role { id = "r1"; user_permission = none }

abbrev manager : User
manager = record { id = "u0"; email = "m@vnp.com"; user_role_id = "r0"; role = some manager_role }

abbrev guest : User
guest = record { id = "u1"; email = "g@vnp.com"; user_role_id = "r1"; role = some idle_role }

abbrev held : UserProjectRole
held = record {
  id = "x1";
  user_id = "u1";
  project_role_id = "pr1";
  project_type = dashboard;
  user_role_id = "r1";
  portfolio_ids = "p1" ∷ [];
  subportfolio_ids = [];
  property_ids = "q1" ∷ "q2" ∷ [];
  is_active = false;
}

abbrev one_role : Db
one_role = record {
  users = record { id = "u0" } ∷ record { id = "u1" } ∷ [];
  user_roles = record { id = "r0" } ∷ record { id = "r1" } ∷ [];
  project_roles =
      record { id = "pr0"; project_type = parser; base_user_role_id = "r0" }
      ∷ record { id = "pr1"; project_type = dashboard; base_user_role_id = "r1" }
      ∷ record { id = "pr2"; project_type = dashboard; base_user_role_id = "r0" }
      ∷ [];
  user_project_roles = held ∷ [];
}

abbrev parser_dto : CreateDto
parser_dto = record {
  user_id = "u1";
  project_type = parser;
  user_role_id = "r0";
  portfolio_ids = some ("p7" ∷ []);
  subportfolio_ids = none;
  property_ids = none;
  is_active = none;
}

manager-is_admin : is_admin manager ≡ true
unfolding is_admin Util.is_user_super_admin Util.is_super_admin
manager-is_admin = refl

guest_no_admin : is_admin guest ≡ false
unfolding is_admin Util.is_user_super_admin Util.is_super_admin
guest_no_admin = refl

abbrev another : String
another = "u0"

guest-ne-another : guest.id ≢ another
guest-ne-another = ne_of_eq-false guest.id another refl

not_admin-refused_example :
    (run scanning (removes "x1") guest one_role ≡ (some forbidden, one_role))
    × (Service.find_all scanning guest one_role
        ≡ (err (error forbidden "Only admins can view all project roles"), one_role))
    × (Service.find_by_user scanning "u0" guest one_role
        ≡ (err (error forbidden "You can only view your own project roles"), one_role))
    × (Service.find_by_user_and_project scanning "u0" parser guest one_role
        ≡ (err (error forbidden "You can only view your own project roles"), one_role))
not_admin-refused_example =
    not_admin-refused scanning guest one_role (removes "x1") "u0" parser guest_no_admin
      guest-ne-another

run-UniqueKeys_example :
    UniqueKeys (run scanning (creates "x2" parser_dto) manager one_role).1.user_project_roles
run-UniqueKeys_example = run-UniqueKeys scanning (creates "x2" parser_dto) manager one_role (tt, tt)

abbrev parser_role : UserProjectRole
parser_role = record {
  id = "x2";
  user_id = "u1";
  project_role_id = "pr0";
  project_type = parser;
  user_role_id = "r0";
  portfolio_ids = "p7" ∷ [];
  subportfolio_ids = [];
  property_ids = [];
  is_active = true;
}

abbrev two_roles : Db
two_roles = record one_role { user_project_roles = held ∷ parser_role ∷ [] }

created : Service.create scanning "x2" parser_dto manager one_role ≡ (ok parser_role, two_roles)
unfolding Service.create is_admin Util.is_user_super_admin Util.is_super_admin Store.create
    Store.find_user Store.find_user_role Store.find_project_role Store.find_by_user_id_and_project
created = refl

create-ok_example :
    (is_admin manager ≡ true)
    × ((u : Document) × In u one_role.users × (u.id ≡ "u1"))
    × ((o : Document) × In o one_role.user_roles × (o.id ≡ "r0"))
    × All (λ s. has_key "u1" parser s ≡ false) one_role.user_project_roles
    × (two_roles
        ≡ record one_role { user_project_roles = one_role.user_project_roles ++ parser_role ∷ [] })
    × (parser_role.user_id ≡ "u1")
    × (parser_role.project_type ≡ parser)
    × (parser_role.user_role_id ≡ "r0")
    × Fits one_role parser_role
create-ok_example =
    create-ok scanning "x2" parser_dto manager one_role two_roles parser_role created

abbrev new_resources : Resources
new_resources = record {
  portfolio_ids = some ("p5" ∷ []);
  subportfolio_ids = none;
  property_ids = none;
}

assign_project_role-existing_example :
    (r : UserProjectRole) × (Service.assign_project_role scanning "x3" "u1" dashboard "r0"
        new_resources manager one_role
      ≡ (
        ok r,
        record one_role {
          user_project_roles =
              map
                (λ x. if has_id "x1" x then reassigned "r0" new_resources x else x)
                one_role.user_project_roles;
        },
      ))
    × (r.user_role_id ≡ "r0")
    × (r.portfolio_ids ≡ "p5" ∷ [])
    × (r.subportfolio_ids ≡ [])
    × (r.property_ids ≡ [])
    × (r.is_active ≡ true)
    × (r.project_role_id ≡ "pr1")
assign_project_role-existing_example =
    assign_project_role-existing scanning "x3" "u1" dashboard "r0" new_resources manager one_role
      (record { id = "u1" }) (record { id = "r0" })
      (record { id = "pr2"; project_type = dashboard; base_user_role_id = "r0" }) held
      manager-is_admin refl refl refl refl refl

abbrev some_access : Service.Access
some_access = record { portfolio_ids = none; property_ids = some ("q2" ∷ "q3" ∷ []) }

add_access_lem_example :
    (ps qs : List String) × (Service.add_access scanning "x1" some_access manager one_role
      ≡ (ok "Access added successfully to user project role", with_ids "x1" ps qs one_role))
    × ((x : String) → In x ps ↔ (In x held.portfolio_ids ⊎ In x (named none)))
    × ((x : String) → In x qs ↔ (In x held.property_ids ⊎ In x (named some_access.property_ids)))
    × Distinct ps
    × Distinct qs
add_access_lem_example =
    add_access_lem scanning "x1" some_access manager one_role held manager-is_admin refl refl
