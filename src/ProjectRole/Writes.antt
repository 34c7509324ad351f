-- ===== src/ProjectRole/Writes.antt =====
-- What the writes of the repository leave in the table.
use vnp_dbms_backend.Common.{String, ◌≡◌, not, some, [], ◌∷◌, ◌++◌, map, ok, filter, if◌then◌else◌}
use vnp_dbms_backend.Common.Prisma.{Prisma}
use vnp_dbms_backend.ProjectRole.Store
use vnp_dbms_backend.ProjectRole.Store.{Db, UserProjectRole, has_id}

module _ (prisma : Prisma) (id : String) (db : Db) where
  pub update-found :
      (f : UserProjectRole → UserProjectRole) {r : UserProjectRole}
      → prisma.find_first (has_id id) db.user_project_roles ≡ some r
      → Store.update prisma id f db ≡ (
        ok (f r),
        record db {
          user_project_roles = map (λ x. if has_id id x then f x else x) db.user_project_roles;
        },
      )
  unfolding Store.update
  update-found f {r} found = rw (found, prisma.rows_update (has_id id) f db.user_project_roles)

  pub delete-found :
      {r : UserProjectRole}
      → prisma.find_first (has_id id) db.user_project_roles ≡ some r
      → Store.delete prisma id db ≡ (
        ok tt,
        record db { user_project_roles = filter (λ x. not (has_id id x)) db.user_project_roles },
      )
  unfolding Store.delete
  delete-found {r} found = rw (found, prisma.rows_delete (has_id id) db.user_project_roles)

pub create-row :
    (prisma : Prisma) (r : UserProjectRole) (db : Db)
    → Store.create prisma r db
      ≡ (ok r, record db { user_project_roles = db.user_project_roles ++ r ∷ [] })
unfolding Store.create
create-row prisma r db = rw (prisma.rows_create r db.user_project_roles)
