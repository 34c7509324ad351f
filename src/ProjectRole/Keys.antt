-- ===== src/ProjectRole/Keys.antt =====
-- A user has one role in a project at most: the unique key of the table.
use vnp_dbms_backend.Common.{
  String, ◌≡◌, refl, inl, inr, Bool, true, false, none, List, [], ◌∷◌, ◌++◌, map, arith, Bool-cases,
  Option-cases, All, eq_iff, filter, get_or,
}
use vnp_dbms_backend.Common.Prisma.{Prisma}
use vnp_dbms_backend.Permission.Types.{User}
use vnp_dbms_backend.Permission.Project.{ProjectType, same_project, dbms}
use vnp_dbms_backend.ProjectRole.Store
use vnp_dbms_backend.ProjectRole.Store.{Db, UserProjectRole, ProjectRole, has_id, has_key, matching}
use vnp_dbms_backend.ProjectRole.Writes.{update-found, delete-found, create-row}
use vnp_dbms_backend.ProjectRole.Service
use vnp_dbms_backend.ProjectRole.Service.{
  Call, creates, updates, removes, assigns, adds_access, revokes_access, is_admin, run, written,
}

abbrev same_key : UserProjectRole → UserProjectRole → Bool
same_key r s = has_key s.user_id s.project_type r

-- No two documents of the table have the same user and project.
abbrev pub UniqueKeys : List UserProjectRole → Type 0
UniqueKeys [] = Unit
UniqueKeys (r ∷ rs) = All (λ s. has_key r.user_id r.project_type s ≡ false) rs × UniqueKeys rs

-- A write that leaves user and project alone.
abbrev KeepsKey : (UserProjectRole → UserProjectRole) → Type 0
KeepsKey f =
    (r : UserProjectRole) → ((f r).user_id ≡ r.user_id) × ((f r).project_type ≡ r.project_type)

UniqueKeys-map :
    (f : UserProjectRole → UserProjectRole)
    → KeepsKey f
    → (rs : List UserProjectRole) → UniqueKeys rs
    → UniqueKeys (map f rs)
UniqueKeys-map f k [] u = tt
UniqueKeys-map f k (r ∷ rs) u = (apart rs u.0, UniqueKeys-map f k rs u.1)
  where
    apart :
        (l : List UserProjectRole)
        → All (λ s. has_key r.user_id r.project_type s ≡ false) l
        → All (λ s. has_key (f r).user_id (f r).project_type s ≡ false) (map f l)
    apart [] a = tt
    apart (s ∷ l) a = (rw ((k r).0, (k r).1, (k s).0, (k s).1) a.0, apart l a.1)

All-filter :
    (P : UserProjectRole → Type 0) (p : UserProjectRole → Bool) (rs : List UserProjectRole)
    → All P rs
    → All P (filter p rs)
All-filter P p [] a = tt
All-filter P p (r ∷ rs) a = elim (Bool-cases (p r)) [
  | inl keep ↦ rw keep (a.0, All-filter P p rs a.1)
  | inr drop ↦ rw drop (All-filter P p rs a.1)
]

UniqueKeys-filter :
    (p : UserProjectRole → Bool) (rs : List UserProjectRole)
    → UniqueKeys rs
    → UniqueKeys (filter p rs)
UniqueKeys-filter p [] u = tt
UniqueKeys-filter p (r ∷ rs) u = elim (Bool-cases (p r)) [
  | inl keep ↦ rw keep (All-filter _ p rs u.0, UniqueKeys-filter p rs u.1)
  | inr drop ↦ rw drop (UniqueKeys-filter p rs u.1)
]

same_project-sym : (a b : ProjectType) → same_project a b ≡ same_project b a
same_project-sym dbms dbms = refl
same_project-sym a b = ground arith

UniqueKeys-snoc :
    (r : UserProjectRole) (rs : List UserProjectRole)
    → All (λ s. has_key r.user_id r.project_type s ≡ false) rs
    → UniqueKeys rs
    → UniqueKeys (rs ++ r ∷ [])
UniqueKeys-snoc r [] a u = (tt, tt)
UniqueKeys-snoc r (s ∷ rs) a u = (apart rs u.0, UniqueKeys-snoc r rs a.1 u.1)
  where
    flipped : has_key s.user_id s.project_type r ≡ false
    flipped = ground (
      arith,
      eq_iff s.user_id r.user_id,
      eq_iff r.user_id s.user_id,
      same_project-sym s.project_type r.project_type,
    )

    apart :
        (l : List UserProjectRole)
        → All (λ t. has_key s.user_id s.project_type t ≡ false) l
        → All (λ t. has_key s.user_id s.project_type t ≡ false) (l ++ r ∷ [])
    apart [] b = (flipped, tt)
    apart (t ∷ l) b = (b.0, apart l b.1)

module _ (prisma : Prisma) where
  update-UniqueKeys :
      (id : String) (f : UserProjectRole → UserProjectRole) (db : Db)
      → KeepsKey f
      → UniqueKeys db.user_project_roles
      → UniqueKeys (Store.update prisma id f db).1.user_project_roles
  unfolding Store.update
  update-UniqueKeys id f db k u =
      elim (Option-cases (prisma.find_first (has_id id) db.user_project_roles)) [
        | inl e ↦ rw (e, Store.update) u
        | inr (r, e) ↦
            rw (update-found prisma id db f e)
              (UniqueKeys-map _ (λ x. ground (arith, k x)) db.user_project_roles u)
      ]

  delete-UniqueKeys :
      (id : String) (db : Db)
      → UniqueKeys db.user_project_roles
      → UniqueKeys (Store.delete prisma id db).1.user_project_roles
  unfolding Store.delete
  delete-UniqueKeys id db u =
      elim (Option-cases (prisma.find_first (has_id id) db.user_project_roles)) [
        | inl e ↦ rw (e, Store.delete) u
        | inr (r, e) ↦
            rw (delete-found prisma id db e) (UniqueKeys-filter _ db.user_project_roles u)
      ]

  -- A new role is created only where `findByUserIdAndProject` has found none.
  create-UniqueKeys :
      (r : UserProjectRole) (db : Db)
      → prisma.find_first (has_key r.user_id r.project_type) db.user_project_roles ≡ none
      → UniqueKeys db.user_project_roles
      → UniqueKeys (Store.create prisma r db).1.user_project_roles
  create-UniqueKeys r db free u = rw (create-row prisma r db) (
      UniqueKeys-snoc r db.user_project_roles
        (prisma.none_found (has_key r.user_id r.project_type) db.user_project_roles free) u)

  module _ (user : User) (db : Db) (u : UniqueKeys db.user_project_roles) where
    create_call :
        (id : String) (d : Service.CreateDto)
        → UniqueKeys (Service.create prisma id d user db).1.user_project_roles
    unfolding Service.create Store.find_user Store.find_user_role Store.find_project_role
        Store.find_by_user_id_and_project
    create_call id d =
        elim (Option-cases
          (prisma.find_first (matching d.project_type d.user_role_id) db.project_roles)) [
            | inl e ↦ ground arith
            | inr (pr, e) ↦ ground (
              arith,
              create-UniqueKeys
                  (record {
                    id = id;
                    user_id = d.user_id;
                    project_role_id = pr.id;
                    project_type = d.project_type;
                    user_role_id = d.user_role_id;
                    portfolio_ids = get_or d.portfolio_ids [];
                    subportfolio_ids = get_or d.subportfolio_ids [];
                    property_ids = get_or d.property_ids [];
                    is_active = get_or d.is_active true;
                  })
                  db,
            )
          ]

    update_call :
        (id : String) (d : Service.UpdateDto)
        → UniqueKeys (Service.update prisma id d user db).1.user_project_roles
    unfolding Service.update Store.find_by_id Store.find_user_role
    update_call id d = ground (arith, update-UniqueKeys id (written d) db (λ r. (refl, refl)) u)

    remove_call : (id : String) → UniqueKeys (Service.remove prisma id user db).1.user_project_roles
    unfolding Service.remove Store.find_by_id
    remove_call id = ground (arith, delete-UniqueKeys id db u)

    assign_call :
        (id user_id : String) (t : ProjectType) (role_id : String) (d : Service.Resources)
        → UniqueKeys
            (Service.assign_project_role prisma id user_id t role_id d user db).1.user_project_roles
    unfolding Service.assign_project_role Store.find_user Store.find_user_role
        Store.find_project_role Store.find_by_user_id_and_project
    assign_call id user_id t role_id d =
        elim (Option-cases (prisma.find_first (has_key user_id t) db.user_project_roles)) [
          | inl free ↦
              elim (Option-cases (prisma.find_first (matching t role_id) db.project_roles)) [
                | inl e ↦ ground arith
                | inr (pr, e) ↦ ground (
                  arith,
                  create-UniqueKeys
                      (record {
                        id = id;
                        user_id = user_id;
                        project_role_id = pr.id;
                        project_type = t;
                        user_role_id = role_id;
                        portfolio_ids = get_or d.portfolio_ids [];
                        subportfolio_ids = get_or d.subportfolio_ids [];
                        property_ids = get_or d.property_ids [];
                        is_active = true;
                      })
                      db,
                )
              ]
          | inr (existing, e) ↦ ground (
            arith,
            update-UniqueKeys existing.id (Service.reassigned role_id d) db (λ r. (refl, refl)) u,
          )
        ]

    add_call :
        (id : String) (d : Service.Access)
        → UniqueKeys (Service.add_access prisma id d user db).1.user_project_roles
    unfolding Service.add_access Store.find_by_id
    add_call id d = elim (Option-cases (prisma.find_first (has_id id) db.user_project_roles)) [
      | inl e ↦ ground arith
      | inr (r, e) ↦ ground (
        arith,
        update-UniqueKeys id
            (λ row. record row {
              portfolio_ids = Service.merge r.portfolio_ids d.portfolio_ids;
              property_ids = Service.merge r.property_ids d.property_ids;
            })
            db (λ x. (refl, refl)) u,
      )
    ]

    revoke_call :
        (id : String) (d : Service.Access)
        → UniqueKeys (Service.revoke_access prisma id d user db).1.user_project_roles
    unfolding Service.revoke_access Store.find_by_id
    revoke_call id d = elim (Option-cases (prisma.find_first (has_id id) db.user_project_roles)) [
      | inl e ↦ ground arith
      | inr (r, e) ↦ ground (
        arith,
        update-UniqueKeys id
            (λ row. record row {
              portfolio_ids = Service.without r.portfolio_ids d.portfolio_ids;
              property_ids = Service.without r.property_ids d.property_ids;
            })
            db (λ x. (refl, refl)) u,
      )
    ]

  -- Every call of the service, whether it returns or throws, keeps the unique key of the table: if
  -- no two documents have the same user and project before it, none have after it.
  pub run-UniqueKeys :
      (c : Call) (user : User) (db : Db)
      → UniqueKeys db.user_project_roles
      → UniqueKeys (run prisma c user db).1.user_project_roles
  unfolding run
  run-UniqueKeys (creates id d) user db u = create_call user db u id d
  run-UniqueKeys (updates id d) user db u = update_call user db u id d
  run-UniqueKeys (removes id) user db u = remove_call user db u id
  run-UniqueKeys (assigns id user_id t role_id d) user db u =
      assign_call user db u id user_id t role_id d
  run-UniqueKeys (adds_access id d) user db u = add_call user db u id d
  run-UniqueKeys (revokes_access id d) user db u = revoke_call user db u id d
