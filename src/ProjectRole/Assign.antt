-- ===== src/ProjectRole/Assign.antt =====
-- What a role that `create` or `assignProjectRole` returns refers to.
use vnp_dbms_backend.Common.{
  String, ◌≡◌, refl, sym, inl, inr, true, false, none, some, [], ◌∷◌, ◌++◌, map, arith, ok,
  Bool-cases, Option-cases, In, All, str_eq, eq_iff, get_or, if◌then◌else◌, and-eq-true_iff,
  returned-injective,
}
use vnp_dbms_backend.Common.Prisma.{Prisma}
use vnp_dbms_backend.Permission.Types.{User}
use vnp_dbms_backend.Permission.Project.{ProjectType, same_project, dbms}
use vnp_dbms_backend.ProjectRole.Store
use vnp_dbms_backend.ProjectRole.Store.{
  Db, Document, UserProjectRole, ProjectRole, has_id, has_key, matching,
}
use vnp_dbms_backend.ProjectRole.Writes.{update-found, create-row}
use vnp_dbms_backend.ProjectRole.Service.{
  CreateDto, Resources, reassigned, is_admin, create, assign_project_role,
}

pub same_project-eq : (a b : ProjectType) → same_project a b ≡ true → a ≡ b
same_project-eq dbms dbms h = refl
same_project-eq a b h = ground arith

-- The project role of a role fits its project and its user role.
pub record Fits (db : Db) (r : UserProjectRole) : Type 0 where
  pub project_role : ProjectRole
  pub known : In project_role db.project_roles
  pub linked : r.project_role_id ≡ project_role.id
  pub project : project_role.project_type ≡ r.project_type
  pub base : project_role.base_user_role_id ≡ r.user_role_id

matching-fits :
    (t : ProjectType) (role_id : String) (p : ProjectRole)
    → matching t role_id p ≡ true
    → (p.project_type ≡ t) × (p.base_user_role_id ≡ role_id)
matching-fits t role_id p h =
    let (a, b) = (and-eq-true_iff _ _).0 h in
    (same_project-eq p.project_type t a, (eq_iff p.base_user_role_id role_id).0 b)

module _ (prisma : Prisma) (id : String) (d : CreateDto) (user : User) (db db' : Db)
    (r : UserProjectRole) where
  created_row : ProjectRole → UserProjectRole
  created_row p = record {
    id = id;
    user_id = d.user_id;
    project_role_id = p.id;
    project_type = d.project_type;
    user_role_id = d.user_role_id;
    portfolio_ids = get_or d.portfolio_ids [];
    subportfolio_ids = get_or d.subportfolio_ids [];
    property_ids = get_or d.property_ids [];
    is_active = get_or d.is_active true;
  }

  -- The answers of the queries on the way to a return.
  record Passed : Type 0 where
    admin : is_admin user ≡ true
    target : Document
    found_target : prisma.find_first (λ u. str_eq u.id d.user_id) db.users ≡ some target
    role : Document
    found_role : prisma.find_first (λ o. str_eq o.id d.user_role_id) db.user_roles ≡ some role
    project_role : ProjectRole
    found_project_role :
        prisma.find_first (matching d.project_type d.user_role_id) db.project_roles
        ≡ some project_role
    free : prisma.find_first (has_key d.user_id d.project_type) db.user_project_roles ≡ none
    result : created_row project_role ≡ r
    stored :
        record db { user_project_roles = db.user_project_roles ++ created_row project_role ∷ [] }
        ≡ db'

  passed : create prisma id d user db ≡ (ok r, db') → Passed
  unfolding create created_row Store.find_user Store.find_user_role Store.find_project_role
      Store.find_by_user_id_and_project
  passed h = elim (Bool-cases (is_admin user)) [
    | inr no_admin ↦ cc (rw no_admin at h)
    | inl admin ↦ elim (Option-cases (prisma.find_first (λ u. str_eq u.id d.user_id) db.users)) [
      | inl no_user ↦ cc (rw (admin, no_user) at h)
      | inr (u, found_user) ↦
          elim (Option-cases (prisma.find_first (λ o. str_eq o.id d.user_role_id) db.user_roles)) [
            | inl no_role ↦ cc (rw (admin, found_user, no_role) at h)
            | inr (o, found_role) ↦
                elim (Option-cases
                  (prisma.find_first (matching d.project_type d.user_role_id) db.project_roles)) [
                    | inl no_project_role ↦
                        cc (rw (admin, found_user, found_role, no_project_role) at h)
                    | inr (p, found_p) ↦
                        elim (Option-cases (
                          prisma.find_first (has_key d.user_id d.project_type)
                            db.user_project_roles)) [
                              | inr (s, taken) ↦
                                  cc (rw (admin, found_user, found_role, found_p, taken) at h)
                              | inl free ↦
                                  let (same, stored) = returned-injective (
                                    rw
                                      (
                                        admin,
                                        found_user,
                                        found_role,
                                        found_p,
                                        free,
                                        create-row prisma (created_row p) db,
                                      )
                                      at h) in
                                  record {
                                    admin = admin;
                                    target = u;
                                    found_target = found_user;
                                    role = o;
                                    found_role = found_role;
                                    project_role = p;
                                    found_project_role = found_p;
                                    free = free;
                                    result = same;
                                    stored = stored;
                                  }
                            ]
                  ]
          ]
    ]
  ]

  -- What a `create` that returns has established: the caller is an administrator; the user and the user role
  -- exist; the user had no role in the project; the role returned is the one document added to
  -- the table, for that user, project and user role, and it fits its project role.
  pub create-ok :
      create prisma id d user db ≡ (ok r, db')
      → (is_admin user ≡ true)
        × ((u : Document) × In u db.users × (u.id ≡ d.user_id))
        × ((o : Document) × In o db.user_roles × (o.id ≡ d.user_role_id))
        × All (λ s. has_key d.user_id d.project_type s ≡ false) db.user_project_roles
        × (db' ≡ record db { user_project_roles = db.user_project_roles ++ r ∷ [] })
        × (r.user_id ≡ d.user_id)
        × (r.project_type ≡ d.project_type)
        × (r.user_role_id ≡ d.user_role_id)
        × Fits db r
  unfolding created_row
  create-ok h =
      let c = passed h in
      let (user_in, user_id) =
        prisma.found_in (λ u. str_eq u.id d.user_id) db.users c.found_target in
      let (role_in, role_id) =
        prisma.found_in (λ o. str_eq o.id d.user_role_id) db.user_roles c.found_role in
      let (p_in, fits) =
        prisma.found_in (matching d.project_type d.user_role_id) db.project_roles
          c.found_project_role in
      let (project, base) = matching-fits d.project_type d.user_role_id c.project_role fits in
      (
        c.admin,
        (c.target, user_in, (eq_iff c.target.id d.user_id).0 user_id),
        (c.role, role_in, (eq_iff c.role.id d.user_role_id).0 role_id),
        prisma.none_found (has_key d.user_id d.project_type) db.user_project_roles c.free,
        rw (← c.result) (sym c.stored),
        rw (← c.result),
        rw (← c.result),
        rw (← c.result),
        rw (← c.result) (record {
          project_role = c.project_role;
          known = p_in;
          linked = refl;
          project = project;
          base = base;
        }),
      )

module _ (prisma : Prisma) (id user_id : String) (t : ProjectType) (role_id : String)
    (d : Resources) (user : User) (db : Db) (target role : Document) (p : ProjectRole) where
  -- For an administrator, where the user, the user role and a project role `p` for it are found and the
  -- user already has a role in the project, `assignProjectRole` returns that role with the new
  -- user role and exactly the given ids, active, and writes it over the old one. The role keeps its old
  -- `project_role_id`, whatever the id of `p` is.
  pub assign_project_role-existing :
      (existing : UserProjectRole)
      → is_admin user ≡ true
      → prisma.find_first (λ u. str_eq u.id user_id) db.users ≡ some target
      → prisma.find_first (λ o. str_eq o.id role_id) db.user_roles ≡ some role
      → prisma.find_first (matching t role_id) db.project_roles ≡ some p
      → prisma.find_first (has_key user_id t) db.user_project_roles ≡ some existing
      → prisma.find_first (has_id existing.id) db.user_project_roles ≡ some existing
      → (r : UserProjectRole) × (assign_project_role prisma id user_id t role_id d user db ≡ (
        ok r,
        record db {
          user_project_roles =
              map
                (λ x. if has_id existing.id x then reassigned role_id d x else x)
                db.user_project_roles;
        },
      ))
        × (r.user_role_id ≡ role_id)
        × (r.portfolio_ids ≡ get_or d.portfolio_ids [])
        × (r.subportfolio_ids ≡ get_or d.subportfolio_ids [])
        × (r.property_ids ≡ get_or d.property_ids [])
        × (r.is_active ≡ true)
        × (r.project_role_id ≡ existing.project_role_id)
  unfolding assign_project_role Store.find_user Store.find_user_role Store.find_project_role
      Store.find_by_user_id_and_project
  assign_project_role-existing existing admin found_user found_role found_p taken back = (
    reassigned role_id d existing,
    rw (
      admin,
      found_user,
      found_role,
      found_p,
      taken,
      update-found prisma existing.id db (reassigned role_id d) back,
    ),
    refl,
    refl,
    refl,
    refl,
    refl,
    refl,
  )
