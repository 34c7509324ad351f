-- ===== src/Invitation/Granted.antt =====
-- What `createUserPermissions` and `createProjectRoleAssignments` of an acceptance add to the tables.
use vnp_dbms_backend.Common.{
  ℕ, ◌+◌, String, ◌≡◌, sym, ap, ◌∙◌, inl, inr, Bool, true, none, some, List, [], ◌∷◌, ◌++◌,
  Bool-cases, Option-cases, any, if◌then◌else◌, In, In-cases, here, there, not-In-nil,
}
use mathlib.Core.List.{append-nil, append_assoc}
use vnp_dbms_backend.Common.Prisma.{Prisma}
use vnp_dbms_backend.ProjectRole.Store.{ProjectRole, UserProjectRole, has_key, matching}
use vnp_dbms_backend.Invitation.Store
use vnp_dbms_backend.Invitation.Store.{FeaturePermission, Mail, Db, ProjectRoleInvitation}
use vnp_dbms_backend.Invitation.Service.{assign_all}

-- The document that an entry of the invitation makes, by the project role that matches it.
abbrev pub row_of : String → String → ProjectRole → ProjectRoleInvitation → UserProjectRole
row_of user_id id r p = record {
  id = id;
  user_id = user_id;
  project_role_id = r.id;
  project_type = p.project_type;
  user_role_id = p.user_role_id;
  portfolio_ids = p.portfolio_ids;
  subportfolio_ids = p.subportfolio_ids;
  property_ids = p.property_ids;
  is_active = true;
}

module _ (prisma : Prisma) (user_id : String) (ids : ℕ → String) (roles : List ProjectRole) where
  -- The rows that the entries add to `rows`: none for an entry without a project role, and no more after one whose project
  -- the user has a role in already.
  unfoldable pub added_roles :
      ℕ → List ProjectRoleInvitation → List UserProjectRole → List UserProjectRole
  added_roles n [] rows = []
  added_roles n (p ∷ ps) rows =
      elim (prisma.find_first (matching p.project_type p.user_role_id) roles) [
        | none ↦ added_roles (n + 1) ps rows
        | some r ↦
            if any (has_key user_id p.project_type) rows
            then []
            else row_of user_id (ids n) r p
              ∷ added_roles (n + 1) ps (rows ++ row_of user_id (ids n) r p ∷ [])
      ]

  -- A row that an entry of the list makes.
  abbrev pub ComesFrom : List ProjectRoleInvitation → UserProjectRole → Type 0
  ComesFrom ps w =
      (p : ProjectRoleInvitation) × (r : ProjectRole) × (n : ℕ) × In p ps
      × (prisma.find_first (matching p.project_type p.user_role_id) roles ≡ some r)
      × (w ≡ row_of user_id (ids n) r p)

  ComesFrom-later :
      (p : ProjectRoleInvitation) (ps : List ProjectRoleInvitation) (w : UserProjectRole)
      → ComesFrom ps w
      → ComesFrom (p ∷ ps) w
  ComesFrom-later p ps w (q, r, n, at, found, is) = (q, r, n, there at, found, is)

  pub added_roles-ComesFrom :
      (n : ℕ) (ps : List ProjectRoleInvitation) (rows : List UserProjectRole) (w : UserProjectRole)
      → In w (added_roles n ps rows)
      → ComesFrom ps w
  unfolding added_roles
  added_roles-ComesFrom n [] rows w at = absurd (not-In-nil at)
  added_roles-ComesFrom n (p ∷ ps) rows w at_all =
      elim (Option-cases (prisma.find_first (matching p.project_type p.user_role_id) roles)) [
        | inl lost ↦
            ComesFrom-later p ps w
              (added_roles-ComesFrom (n + 1) ps rows w (rw (lost, added_roles) at at_all))
        | inr (r, found) ↦ elim (Bool-cases (any (has_key user_id p.project_type) rows)) [
          | inl taken ↦ absurd (not-In-nil (rw (found, taken, added_roles) at at_all))
          | inr free ↦ elim (In-cases (rw (found, free, added_roles) at at_all)) [
            | inl is ↦ (p, r, n, here, found, is)
            | inr later ↦ ComesFrom-later p ps w (added_roles-ComesFrom (n + 1) ps _ w later)
          ]
        ]
      ]

module _ (prisma : Prisma) where
  pub create_feature_permissions-appends :
      (ps : List FeaturePermission) (db : Db)
      → (Store.create_feature_permissions prisma ps db).1
        ≡ record db { feature_permissions = db.feature_permissions ++ ps }
  unfolding Store.create_feature_permissions
  create_feature_permissions-appends [] db =
      ap (λ fs. record db { feature_permissions = fs }) (sym (append-nil db.feature_permissions))
  create_feature_permissions-appends (p ∷ ps) db =
      let first = record db { feature_permissions = prisma.create p db.feature_permissions } in
      create_feature_permissions-appends ps first
      ∙ ap (λ fs. record db { feature_permissions = fs })
          (rw prisma.rows_create (append_assoc db.feature_permissions (p ∷ []) ps))

  module _ (hash : String → String → String) (delivers : Mail → Bool) where
    pub assign_all-appends :
        (user_id : String) (ids : ℕ → String) (n : ℕ) (ps : List ProjectRoleInvitation) (db : Db)
        → (assign_all prisma hash delivers user_id ids n ps db).1 ≡ record db {
          user_project_roles =
              db.user_project_roles
              ++ added_roles prisma user_id ids db.project_roles n ps db.user_project_roles;
        }
    unfolding assign_all added_roles Store.find_project_role Store.create_user_project_role
    assign_all-appends user_id ids n [] db =
        ap (λ rs. record db { user_project_roles = rs }) (sym (append-nil db.user_project_roles))
    assign_all-appends user_id ids n (p ∷ ps) db =
        elim (Option-cases
          (prisma.find_first (matching p.project_type p.user_role_id) db.project_roles)) [
            | inl lost ↦ rw (lost, added_roles) (assign_all-appends user_id ids (n + 1) ps db)
            | inr (r, found) ↦
                elim (Bool-cases (any (has_key user_id p.project_type) db.user_project_roles)) [
                  | inl taken ↦
                      rw (found, taken, added_roles)
                        (ap (λ rs. record db { user_project_roles = rs })
                          (sym (append-nil db.user_project_roles)))
                  | inr free ↦
                      rw (found, free, added_roles, prisma.rows_create)
                        (let row = row_of user_id (ids n) r p in
                          let next = record db {
                            user_project_roles = db.user_project_roles ++ row ∷ [];
                          } in
                          assign_all-appends user_id ids (n + 1) ps next
                          ∙ ap (λ rs. record db { user_project_roles = rs })
                              (append_assoc db.user_project_roles (row ∷ []) _))
                ]
          ]
