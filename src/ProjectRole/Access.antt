-- ===== src/ProjectRole/Access.antt =====
-- Who may call the methods, and what they do to the ids.
use vnp_dbms_backend.Common.{String, ◌≡◌, ◌≢◌, false, some, err, error, forbidden, eq-false_of_ne}
use vnp_dbms_backend.Common.Prisma.{Prisma}
use vnp_dbms_backend.Permission.Types.{User}
use vnp_dbms_backend.Permission.Project.{ProjectType}
use vnp_dbms_backend.ProjectRole.Store.{Db}
use vnp_dbms_backend.ProjectRole.Service
use vnp_dbms_backend.ProjectRole.Service.{
  Call, creates, updates, removes, assigns, adds_access, revokes_access, is_admin, run,
}

module _ (prisma : Prisma) (user : User) (db : Db) where
  refused : (c : Call) → is_admin user ≡ false → run prisma c user db ≡ (some forbidden, db)
  unfolding run Service.create Service.update Service.remove Service.assign_project_role
      Service.add_access Service.revoke_access
  refused (creates id d) h = rw (h, run)
  refused (updates id d) h = rw (h, run)
  refused (removes id) h = rw (h, run)
  refused (assigns id user_id t role_id d) h = rw (h, run)
  refused (adds_access id d) h = rw (h, run)
  refused (revokes_access id d) h = rw (h, run)

  -- A caller who is not an administrator changes nothing by any method, each of which throws the
  -- exception `forbidden`; nor does such a caller see the list of all roles or, by
  -- either method, a role of another user.
  pub not_admin-refused :
      (c : Call) (user_id : String) (t : ProjectType)
      → is_admin user ≡ false
      → user.id ≢ user_id
      → (run prisma c user db ≡ (some forbidden, db))
        × (Service.find_all prisma user db
            ≡ (err (error forbidden "Only admins can view all project roles"), db))
        × (Service.find_by_user prisma user_id user db
            ≡ (err (error forbidden "You can only view your own project roles"), db))
        × (Service.find_by_user_and_project prisma user_id t user db
            ≡ (err (error forbidden "You can only view your own project roles"), db))
  unfolding Service.find_all Service.find_by_user Service.find_by_user_and_project
  not_admin-refused c user_id t h other = (
    refused c h,
    rw (h, Service.find_all),
    rw (eq-false_of_ne user.id user_id other, h),
    rw (eq-false_of_ne user.id user_id other, h),
  )
