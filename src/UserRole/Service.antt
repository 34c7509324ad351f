-- ===== src/UserRole/Service.antt =====
-- src/modules/user-role: the service and the repository. The warnings about a configuration are
-- logged and change nothing, so they are left out (Permission/Roles.antt is about them).
use vnp_dbms_backend.Common.{
  ℕ, ◌+◌, Bool, true, not, ◌&&◌, Option, none, some, List, [], ◌∷◌, map, String, str_eq, is_empty,
  is_some, get_or, leb, eqb, if◌then◌else◌, Exec, pure, raise, gets, modify, when, or_raise, ◌>>=◌,
  ◌>>◌, bad_request, not_found, conflict,
}
use vnp_dbms_backend.Common.Prisma.{Prisma}
use vnp_dbms_backend.Permission.Types.{Permission, User, ModuleType}
use vnp_dbms_backend.Permission.Service.{ResourceIds, get_accessible_resource_ids}
use vnp_dbms_backend.Settings.Service.{Item, Update, new_order, updates_for}

-- `UserRole`: the permissions in the order of the modules, and the other columns that a request can write
pub record Role : Type 0 where
  pub id : String
  pub name : String
  pub is_external : Bool
  pub permissions : List (Option Permission)
  pub user_column_template_id : Option String
  pub order : ℕ

pub record Account : Type 0 where
  pub id : String
  pub password : String
  pub user_role_id : String

pub record Db : Type 0 where
  pub roles : List Role
  pub users : List Account
  pub column_templates : List String

-- `CreateUserRoleDto`, with the id that the database gives the role
pub record CreateDto : Type 0 where
  pub id : String
  pub name : String
  pub is_external : Bool
  pub permissions : List (Option Permission)
  pub user_column_template_id : Option String

-- `UpdateUserRoleDto`: `merge` is what becomes of the permissions.
pub record UpdateDto : Type 0 where
  pub name : Option String
  pub is_external : Option Bool
  pub merge : List (Option Permission) → List (Option Permission)
  pub user_column_template_id : Option String

abbrev pub has_id : String → Role → Bool
has_id id r = str_eq r.id id

abbrev pub has_name : String → Role → Bool
has_name name r = str_eq r.name name

abbrev pub has_role : String → Account → Bool
has_role id u = str_eq u.user_role_id id

abbrev pub or_old : {A : Type 0} → Option A → Option A → Option A
or_old none old = old
or_old (some a) old = some a

abbrev pub written : UpdateDto → Role → Role
written d r = record r {
  name = get_or d.name r.name;
  is_external = get_or d.is_external r.is_external;
  permissions = d.merge r.permissions;
  user_column_template_id = or_old d.user_column_template_id r.user_column_template_id;
}

-- A role as an item that has an order
abbrev pub item : Role → Item
item r = record { id = r.id; name = r.name; is_active = true; order = r.order }

-- `data.name && data.name !== userRole.name`
abbrev pub renames : String → Role → Bool
renames n r = not (is_empty n) && not (str_eq n r.name)

module _ (prisma : Prisma) where
  unfoldable pub find_by_id : String → Exec Db (Option Role)
  find_by_id id = gets (λ db. prisma.find_first (has_id id) db.roles)

  unfoldable pub find_by_name : String → Exec Db (Option Role)
  find_by_name name = gets (λ db. prisma.find_first (has_name name) db.roles)

  unfoldable pub update_many : List Update → Exec Db (Unit {0})
  update_many [] = pure tt
  update_many (u ∷ us) = do
    modify (λ db. record db {
      roles = prisma.update (has_id u.id) (λ r. record r { order = u.order }) db.roles;
    })
    update_many us

  abbrev assert_template : String → Exec Db (Unit {0})
  assert_template id = do
    template ← gets (λ db. prisma.find_first (λ t. str_eq t id) db.column_templates)
    when (not (is_some template)) (raise not_found "Column template not found")

  -- An id that is missing or empty is not looked for.
  unfoldable pub assert_column_template_exists : Option String → Exec Db (Unit {0})
  assert_column_template_exists none = pure tt
  assert_column_template_exists (some id) = if is_empty id then pure tt else assert_template id

  unfoldable pub create : CreateDto → Exec Db (Unit {0})
  create d = do
    existing ← find_by_name d.name
    when (is_some existing) (raise conflict "Role with this name already exists")
    assert_column_template_exists d.user_column_template_id
    modify (λ db. record db {
      roles =
          prisma.create
            (record {
              id = d.id;
              name = d.name;
              is_external = d.is_external;
              permissions = d.permissions;
              user_column_template_id = d.user_column_template_id;
              order = prisma.count (λ r. true) db.roles + 1;
            })
            db.roles;
    })

  abbrev listed : ResourceIds → Db → List Role
  listed ResourceIds.every_id db = prisma.ordered_by (λ r. r.order) db.roles
  listed (ResourceIds.only ids) db = []

  unfoldable pub find_all : User → Exec Db (List Role)
  find_all u = gets (listed (get_accessible_resource_ids u ModuleType.roles))

  unfoldable pub find_one : String → Exec Db Role
  find_one id = do found ← find_by_id id; or_raise found not_found "Role not found"

  abbrev check_name : Option String → Role → Exec Db (Unit {0})
  check_name none r = pure tt
  check_name (some n) r = do
    existing ← find_by_name n
    when (renames n r && is_some existing) (raise conflict "Role with this name already exists")

  unfoldable pub update : String → UpdateDto → Exec Db (Unit {0})
  update id d = do
    r ← find_one id
    check_name d.name r
    assert_column_template_exists d.user_column_template_id
    modify (λ db. record db { roles = prisma.update (has_id id) (written d) db.roles })

  -- `compare` is bcrypt's.
  unfoldable pub remove : (String → String → Bool) → (id password user_id : String) → Exec Db String
  remove compare id password user_id = do
    account ← gets (λ db. prisma.find_first (λ u. str_eq u.id user_id) db.users)
    u ← or_raise account not_found "User not found"
    when (not (compare password u.password)) (raise bad_request "Invalid password")
    r ← find_one id
    user_count ← gets (λ db. prisma.count (has_role id) db.users)
    when (leb 1 user_count) (
        raise bad_request
          "Cannot delete role with assigned users. Please reassign the users first.")
    modify (λ db. record db { roles = prisma.delete (has_id id) db.roles })
    pure "Role deleted successfully"

  abbrev move : String → (current new : ℕ) → Exec Db String
  move id current new = do
    all ← gets (λ db. prisma.ordered_by (λ r. r.order) db.roles)
    update_many (updates_for (new_order id current new) (map item all))
    pure "Role order updated successfully"

  unfoldable pub reorder : String → (new : ℕ) → Exec Db String
  reorder id new = do
    r ← find_one id
    if eqb r.order new then pure "Role order unchanged" else move id r.order new

-- What a request asks for
pub data Call : Type 0 where
  creates : CreateDto → Call
  updates : String → UpdateDto → Call
  removes : (id password user_id : String) → Call
  reorders : String → ℕ → Call

unfoldable pub run : Prisma → (String → String → Bool) → Call → Db → Db
run prisma compare (creates d) db = (create prisma d db).1
run prisma compare (updates id d) db = (update prisma id d db).1
run prisma compare (removes id password user_id) db =
    (remove prisma compare id password user_id db).1
run prisma compare (reorders id new) db = (reorder prisma id new db).1
