-- ===== src/ProjectRole/Service.antt =====
-- src/modules/user-project-role/user-project-role.service.ts
use vnp_dbms_backend.Common.{
  String, Bool, true, false, not, ◌&&◌, ◌||◌, Option, none, some, List, [], ◌∷◌, ◌++◌, str_eq,
  filter, any, Exec, pure, raise, ◌>>=◌, ◌>>◌, when, or_raise, forbidden, not_found, conflict,
  bad_request, get_or, is_some, Result, ok, err, Status, error,
}
use vnp_dbms_backend.Common.Prisma.{Prisma}
use vnp_dbms_backend.Permission.Types.{User, UserRole, Permission, is_full}
use vnp_dbms_backend.Permission.Util.{is_user_super_admin}
use vnp_dbms_backend.Permission.Service.{given}
use vnp_dbms_backend.Permission.Project.{ProjectType}
use vnp_dbms_backend.ProjectRole.Store
use vnp_dbms_backend.ProjectRole.Store.{Db, Document, ProjectRole, UserProjectRole}

-- `CreateUserProjectRoleDto`
pub record CreateDto : Type 0 where
  pub user_id : String
  pub project_type : ProjectType
  pub user_role_id : String
  pub portfolio_ids : Option (List String)
  pub subportfolio_ids : Option (List String)
  pub property_ids : Option (List String)
  pub is_active : Option Bool

-- `UpdateUserProjectRoleDto`
pub record UpdateDto : Type 0 where
  pub user_role_id : Option String
  pub portfolio_ids : Option (List String)
  pub subportfolio_ids : Option (List String)
  pub property_ids : Option (List String)
  pub is_active : Option Bool

-- The argument `resources` of `assignProjectRole`
pub record Resources : Type 0 where
  pub portfolio_ids : Option (List String)
  pub subportfolio_ids : Option (List String)
  pub property_ids : Option (List String)

-- The argument `data` of `addAccess` and `revokeAccess`
pub record Access : Type 0 where
  pub portfolio_ids : Option (List String)
  pub property_ids : Option (List String)

-- `user.role?.user_permission?.permission_level === 'all'`
abbrev level_is_full : Option Permission → Bool
level_is_full none = false
level_is_full (some p) = is_full p.permission_level

abbrev manages_users : Option UserRole → Bool
manages_users none = false
manages_users (some r) = level_is_full r.user_permission

-- The test of every method that changes something: a super administrator, or full user management.
unfoldable pub is_admin : User → Bool
is_admin u = is_user_super_admin u || manages_users u.role

abbrev pub is_nil : List String → Bool
is_nil [] = true
is_nil (x ∷ xs) = false

-- `!ids || ids.length === 0`
abbrev pub none_given : Option (List String) → Bool
none_given ids = is_nil (get_or ids [])

-- `[...new Set(ids)]`: the first occurrence of each id, in order.
unfoldable pub unique : List String → List String
unique [] = []
unique (x ∷ xs) = x ∷ filter (λ y. not (str_eq x y)) (unique xs)

-- `[...new Set([...old, ...added])]`
abbrev pub merge : List String → Option (List String) → List String
merge old added = unique (old ++ get_or added [])

-- `old.filter(id => !removed.includes(id))`
abbrev pub without : List String → Option (List String) → List String
without old removed = filter (λ id. not (any (str_eq id) (get_or removed []))) old

-- What the update of the document writes: only the fields that are given.
abbrev pub written : UpdateDto → UserProjectRole → UserProjectRole
written d r = record r {
  user_role_id = get_or d.user_role_id r.user_role_id;
  portfolio_ids = get_or d.portfolio_ids r.portfolio_ids;
  subportfolio_ids = get_or d.subportfolio_ids r.subportfolio_ids;
  property_ids = get_or d.property_ids r.property_ids;
  is_active = get_or d.is_active r.is_active;
}

-- What `assignProjectRole` writes over the role that the user already has in the project.
abbrev pub reassigned : String → Resources → UserProjectRole → UserProjectRole
reassigned user_role_id d r = record r {
  user_role_id = user_role_id;
  portfolio_ids = get_or d.portfolio_ids [];
  subportfolio_ids = get_or d.subportfolio_ids [];
  property_ids = get_or d.property_ids [];
  is_active = true;
}

module _ (prisma : Prisma) where
  -- The checks that `create` and `assignProjectRole` share, in their order.
  abbrev check_target : String → String → ProjectType → Exec Db ProjectRole
  check_target user_id user_role_id t = do
    target ← Store.find_user prisma user_id
    found_user ← or_raise target not_found "User not found"
    role ← Store.find_user_role prisma user_role_id
    found_role ← or_raise role not_found "User role not found"
    project_role ← Store.find_project_role prisma t user_role_id
    or_raise project_role not_found "Project role with the given user role not found"

  -- `create`; `id` is the id that the database gives the new document.
  unfoldable pub create : String → CreateDto → User → Exec Db UserProjectRole
  create id d user = do
    when (not (is_admin user)) (raise forbidden "Only admins can create project roles")
    project_role ← check_target d.user_id d.user_role_id d.project_type
    existing ← Store.find_by_user_id_and_project prisma d.user_id d.project_type
    when (is_some existing) (raise conflict "User already has a role assigned")
    Store.create prisma (record {
      id = id;
      user_id = d.user_id;
      project_role_id = project_role.id;
      project_type = d.project_type;
      user_role_id = d.user_role_id;
      portfolio_ids = get_or d.portfolio_ids [];
      subportfolio_ids = get_or d.subportfolio_ids [];
      property_ids = get_or d.property_ids [];
      is_active = get_or d.is_active true;
    })

  unfoldable pub find_all : User → Exec Db (List UserProjectRole)
  find_all user = do
    when (not (is_admin user)) (raise forbidden "Only admins can view all project roles")
    Store.find_all prisma

  -- `user.id !== userId && …`: everybody sees their own roles, an administrator everybody's.
  abbrev check_own : String → User → Exec Db (Unit {0})
  check_own user_id user =
      when (not (str_eq user.id user_id) && not (is_admin user))
        (raise forbidden "You can only view your own project roles")

  unfoldable pub find_by_user : String → User → Exec Db (List UserProjectRole)
  find_by_user user_id user = do check_own user_id user; Store.find_by_user_id prisma user_id

  unfoldable pub find_by_user_and_project :
      String → ProjectType → User → Exec Db (Option UserProjectRole)
  find_by_user_and_project user_id t user = do
    check_own user_id user
    Store.find_by_user_id_and_project prisma user_id t

  -- `if (data.user_role_id)`: the role is looked up if one is given that is not empty.
  abbrev check_new_role : Option String → Exec Db (Unit {0})
  check_new_role none = pure tt
  check_new_role (some role_id) = do
    role ← Store.find_user_role prisma role_id
    found ← or_raise role not_found "User role not found"
    pure tt

  unfoldable pub update : String → UpdateDto → User → Exec Db UserProjectRole
  update id d user = do
    when (not (is_admin user)) (raise forbidden "Only admins can update project roles")
    found ← Store.find_by_id prisma id
    r ← or_raise found not_found "User project role not found"
    check_new_role (given d.user_role_id)
    Store.update prisma id (written d)

  unfoldable pub remove : String → User → Exec Db String
  remove id user = do
    when (not (is_admin user)) (raise forbidden "Only admins can remove project roles")
    found ← Store.find_by_id prisma id
    r ← or_raise found not_found "User project role not found"
    Store.delete prisma id
    pure "User project role removed successfully"

  abbrev assign_to :
      String
      → String
      → ProjectType
      → String
      → Resources
      → ProjectRole
      → Option UserProjectRole
      → Exec Db UserProjectRole
  assign_to id user_id t user_role_id d project_role (some existing) =
      Store.update prisma existing.id (reassigned user_role_id d)
  assign_to id user_id t user_role_id d project_role none = Store.create prisma (record {
    id = id;
    user_id = user_id;
    project_role_id = project_role.id;
    project_type = t;
    user_role_id = user_role_id;
    portfolio_ids = get_or d.portfolio_ids [];
    subportfolio_ids = get_or d.subportfolio_ids [];
    property_ids = get_or d.property_ids [];
    is_active = true;
  })

  -- `assignProjectRole`; `id` is the id that the database gives a new document.
  unfoldable pub assign_project_role :
      String → String → ProjectType → String → Resources → User → Exec Db UserProjectRole
  assign_project_role id user_id t user_role_id d user = do
    when (not (is_admin user)) (raise forbidden "Only admins can assign project roles")
    project_role ← check_target user_id user_role_id t
    existing ← Store.find_by_user_id_and_project prisma user_id t
    assign_to id user_id t user_role_id d project_role existing

  unfoldable pub add_access : String → Access → User → Exec Db String
  add_access id d user = do
    when (not (is_admin user)) (raise forbidden "Only admins can manage project role access")
    when (none_given d.portfolio_ids && none_given d.property_ids)
        (raise bad_request "Please provide at least one portfolio_id or property_id to add")
    found ← Store.find_by_id prisma id
    r ← or_raise found not_found "User project role not found"
    written_role ← Store.update prisma id (λ row. record row {
      portfolio_ids = merge r.portfolio_ids d.portfolio_ids;
      property_ids = merge r.property_ids d.property_ids;
    })
    pure "Access added successfully to user project role"

  unfoldable pub revoke_access : String → Access → User → Exec Db String
  revoke_access id d user = do
    when (not (is_admin user)) (raise forbidden "Only admins can manage project role access")
    when (none_given d.portfolio_ids && none_given d.property_ids)
        (raise bad_request "Please provide at least one portfolio_id or property_id to revoke")
    found ← Store.find_by_id prisma id
    r ← or_raise found not_found "User project role not found"
    written_role ← Store.update prisma id (λ row. record row {
      portfolio_ids = without r.portfolio_ids d.portfolio_ids;
      property_ids = without r.property_ids d.property_ids;
    })
    pure "Access revoked successfully from user project role"

-- Every method that changes the table, with its arguments.
pub data Call : Type 0 where
  creates : String → CreateDto → Call
  updates : String → UpdateDto → Call
  removes : String → Call
  assigns : String → String → ProjectType → String → Resources → Call
  adds_access revokes_access : String → Access → Call

-- How a call ends: the exception's class, or `none` for a return.
abbrev thrown {ℓ} : {A : Type ℓ} → Result A → Option Status
thrown (ok a) = none
thrown (err (error c m)) = some c

abbrev ended : {A : Type 0} → Result A × Db → Option Status × Db
ended (r, db) = (thrown r, db)

unfoldable pub run : Prisma → Call → User → Db → Option Status × Db
run prisma (creates id d) user db = ended (create prisma id d user db)
run prisma (updates id d) user db = ended (update prisma id d user db)
run prisma (removes id) user db = ended (remove prisma id user db)
run prisma (assigns id user_id t role_id d) user db =
    ended (assign_project_role prisma id user_id t role_id d user db)
run prisma (adds_access id d) user db = ended (add_access prisma id d user db)
run prisma (revokes_access id d) user db = ended (revoke_access prisma id d user db)
