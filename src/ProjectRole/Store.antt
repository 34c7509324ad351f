-- ===== src/ProjectRole/Store.antt =====
-- The tables of prisma/schema.prisma that the service of user-project-role reads and writes, and the
-- methods of src/modules/user-project-role/user-project-role.repository.ts. A new document's id
-- is chosen by the database, so it is an argument. What `include` adds to a document for display
-- is left out, and so are the dates `created_at` and `updated_at`.
use vnp_dbms_backend.Common.{
  String, Bool, ◌&&◌, Option, List, str_eq, filter, Exec, pure, gets, modify, ◌>>=◌, ◌>>◌, internal,
  or_raise,
}
use vnp_dbms_backend.Common.Prisma.{Prisma}
use vnp_dbms_backend.Permission.Project.{ProjectType, same_project}

-- The part of a document of `User` and `UserRole` that is read here.
pub record Document : Type 0 where
  pub id : String

-- `model ProjectRole`
pub record ProjectRole : Type 0 where
  pub id : String
  pub project_type : ProjectType
  pub base_user_role_id : String

-- `model UserProjectRole`, and the interface `IUserProjectRole`
pub record UserProjectRole : Type 0 where
  pub id : String
  pub user_id : String
  pub project_role_id : String
  pub project_type : ProjectType
  pub user_role_id : String
  pub portfolio_ids : List String
  pub subportfolio_ids : List String
  pub property_ids : List String
  pub is_active : Bool

pub record Db : Type 0 where
  pub users : List Document
  pub user_roles : List Document
  pub project_roles : List ProjectRole
  pub user_project_roles : List UserProjectRole

-- The unique key `user_id_project_type`.
abbrev pub has_key : String → ProjectType → UserProjectRole → Bool
has_key user_id t r = str_eq r.user_id user_id && same_project r.project_type t

abbrev pub has_id : String → UserProjectRole → Bool
has_id id r = str_eq r.id id

-- The `where` of `findByProjectTypeAndBaseUserRole`.
abbrev pub matching : ProjectType → String → ProjectRole → Bool
matching t role_id r = same_project r.project_type t && str_eq r.base_user_role_id role_id

module _ (prisma : Prisma) where
  unfoldable pub create : UserProjectRole → Exec Db UserProjectRole
  create r = do
    modify (λ db. record db { user_project_roles = prisma.create r db.user_project_roles })
    pure r

  unfoldable pub find_by_id : String → Exec Db (Option UserProjectRole)
  find_by_id id = gets (λ db. prisma.find_first (has_id id) db.user_project_roles)

  -- `findMany` gives the documents that match.
  unfoldable pub find_by_user_id : String → Exec Db (List UserProjectRole)
  find_by_user_id user_id =
      gets (λ db. filter (λ r. str_eq r.user_id user_id) db.user_project_roles)

  unfoldable pub find_by_user_id_and_project :
      String → ProjectType → Exec Db (Option UserProjectRole)
  find_by_user_id_and_project user_id t =
      gets (λ db. prisma.find_first (has_key user_id t) db.user_project_roles)

  unfoldable pub find_all : Exec Db (List UserProjectRole)
  find_all = gets (λ db. db.user_project_roles)

  -- `update` throws if there is no such document, and returns the document as it is written.
  unfoldable pub update : String → (UserProjectRole → UserProjectRole) → Exec Db UserProjectRole
  update id write = do
    found ← gets (λ db. prisma.find_first (has_id id) db.user_project_roles)
    r ← or_raise found internal "No record was found for an update."
    modify (λ db. record db {
      user_project_roles = prisma.update (has_id id) write db.user_project_roles;
    })
    pure (write r)

  unfoldable pub delete : String → Exec Db Unit
  delete id = do
    found ← gets (λ db. prisma.find_first (has_id id) db.user_project_roles)
    r ← or_raise found internal "No record was found for a delete."
    modify
        (λ db. record db { user_project_roles = prisma.delete (has_id id) db.user_project_roles })

  -- `deleteMany`
  unfoldable pub delete_by_user_id : String → Exec Db Unit
  delete_by_user_id user_id = modify (λ db. record db {
    user_project_roles = prisma.delete (λ r. str_eq r.user_id user_id) db.user_project_roles;
  })

  -- `prisma.user.findUnique`, `prisma.userRole.findUnique` and the method
  -- `findByProjectTypeAndBaseUserRole` of project-role.repository.ts
  unfoldable pub find_user : String → Exec Db (Option Document)
  find_user id = gets (λ db. prisma.find_first (λ d. str_eq d.id id) db.users)

  unfoldable pub find_user_role : String → Exec Db (Option Document)
  find_user_role id = gets (λ db. prisma.find_first (λ d. str_eq d.id id) db.user_roles)

  unfoldable pub find_project_role : ProjectType → String → Exec Db (Option ProjectRole)
  find_project_role t role_id = gets (λ db. prisma.find_first (matching t role_id) db.project_roles)
