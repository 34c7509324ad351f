-- ===== src/Invitation/Roles.antt =====
-- The project roles that an accepted invitation gives.
use vnp_dbms_backend.Common.{
  ℕ, ◌+◌, String, ◌≡◌, ◌≢◌, refl, sym, ap, ◌∙◌, inl, inr, Bool, true, none, some, List, [], ◌∷◌,
  ◌++◌, Bool-cases, Option-cases, any, any_iff, In, In-cases, In-append, here, there, not-In-nil,
  and-eq-true_iff, eq_iff,
}
use vnp_dbms_backend.Common.Prisma.{Prisma}
use vnp_dbms_backend.ProjectRole.Store.{ProjectRole, UserProjectRole, has_key, matching}
use vnp_dbms_backend.ProjectRole.Assign.{same_project-eq}
use vnp_dbms_backend.Invitation.Store.{Invitation, Mail, Db, ProjectRoleInvitation, has_id}
use vnp_dbms_backend.Invitation.Service.{AcceptInvitation, accept_invitation}
use vnp_dbms_backend.Invitation.Granted.{row_of, added_roles}
use vnp_dbms_backend.Invitation.Accept.{Acceptable, accept_invitation-cases}

-- No two entries are for the same project.
abbrev pub AreDistinct : List ProjectRoleInvitation → Type 0
AreDistinct [] = Unit
AreDistinct (p ∷ ps) =
    ((q : ProjectRoleInvitation) → In q ps → p.project_type ≢ q.project_type) × AreDistinct ps

-- The user has no role yet.
abbrev pub HasNone : String → List UserProjectRole → Type 0
HasNone user_id rows = (w : UserProjectRole) → In w rows → w.user_id ≢ user_id

module _ (prisma : Prisma) (user_id : String) (ids : ℕ → String) (roles : List ProjectRole) where
  -- One row for each entry that a project role matches, in the order of the entries.
  unfoldable pub rows_for : ℕ → List ProjectRoleInvitation → List UserProjectRole
  rows_for n [] = []
  rows_for n (p ∷ ps) = elim (prisma.find_first (matching p.project_type p.user_role_id) roles) [
    | none ↦ rows_for (n + 1) ps
    | some r ↦ row_of user_id (ids n) r p ∷ rows_for (n + 1) ps
  ]

  -- No role of the user is for the project of an entry.
  abbrev AreFree : List ProjectRoleInvitation → List UserProjectRole → Type 0
  AreFree ps rows =
      (w : UserProjectRole)
      → In w rows
      → w.user_id ≡ user_id
      → (p : ProjectRoleInvitation) → In p ps
      → w.project_type ≢ p.project_type

  not_taken :
      (p : ProjectRoleInvitation) (ps : List ProjectRoleInvitation) (rows : List UserProjectRole)
      → AreFree (p ∷ ps) rows
      → any (has_key user_id p.project_type) rows ≢ true
  not_taken p ps rows free taken =
      let (w, at, hit) = (any_iff (has_key user_id p.project_type) rows).0 taken in
      let (same_user, same_type) = (and-eq-true_iff _ _).0 hit in
      free w at ((eq_iff w.user_id user_id).0 same_user) p here
        (same_project-eq w.project_type p.project_type same_type)

  AreFree-snoc :
      (n : ℕ) (r : ProjectRole) (p : ProjectRoleInvitation) (ps : List ProjectRoleInvitation)
      (rows : List UserProjectRole)
      → AreDistinct (p ∷ ps)
      → AreFree (p ∷ ps) rows
      → AreFree ps (rows ++ row_of user_id (ids n) r p ∷ [])
  AreFree-snoc n r p ps rows distinct free w at same q q_at = elim ((In-append rows _).0 at) [
    | inl old ↦ free w old same q (there q_at)
    | inr new ↦ elim (In-cases new) [
      | inl is ↦ λ e. distinct.0 q q_at (ap (λ z. z.project_type) (sym is) ∙ e)
      | inr later ↦ absurd (not-In-nil later)
    ]
  ]

  added_roles-eq-rows_for :
      (n : ℕ) (ps : List ProjectRoleInvitation) (rows : List UserProjectRole)
      → AreDistinct ps
      → AreFree ps rows
      → added_roles prisma user_id ids roles n ps rows ≡ rows_for n ps
  unfolding added_roles rows_for
  added_roles-eq-rows_for n [] rows distinct free = refl
  added_roles-eq-rows_for n (p ∷ ps) rows distinct free =
      elim (Option-cases (prisma.find_first (matching p.project_type p.user_role_id) roles)) [
        | inl lost ↦
            rw (lost, added_roles, rows_for)
              (added_roles-eq-rows_for (n + 1) ps rows distinct.1
                (λ w at same q q_at. free w at same q (there q_at)))
        | inr (r, found) ↦ elim (Bool-cases (any (has_key user_id p.project_type) rows)) [
          | inl taken ↦ absurd (not_taken p ps rows free taken)
          | inr ready ↦
              rw (found, ready, added_roles, rows_for)
                (ap (λ ws. row_of user_id (ids n) r p ∷ ws)
                  (added_roles-eq-rows_for (n + 1) ps _ distinct.1
                    (AreFree-snoc n r p ps rows distinct free)))
        ]
      ]

module _ (prisma : Prisma) (hash : String → String → String) (delivers : Mail → Bool) where
  -- Where no two entries of an acceptable invitation are for the same project, and its id finds it, and the id that the
  -- database gives the account has no project role yet, `acceptInvitation` adds exactly one row
  -- for each entry that a project role matches, in their order, with the entry's lists; also where
  -- its last write is refused. The roles of all other users stay.
  pub accept_invitation-assigns :
      (token : String) (d : AcceptInvitation) (user_id salt : String) (ids : ℕ → String) (now : ℕ)
      (i : Invitation) (db : Db)
      → Acceptable prisma hash delivers token d user_id salt ids now i db
      → prisma.find_first (has_id i.id) db.invitations ≡ some i
      → AreDistinct i.project_roles
      → HasNone user_id db.user_project_roles
      → (accept_invitation prisma hash delivers token d user_id salt ids now
          db).1.user_project_roles
        ≡ db.user_project_roles ++ rows_for prisma user_id ids db.project_roles 0 i.project_roles
  accept_invitation-assigns token d user_id salt ids now i db a found distinct new =
      let (db', users, permissions, roles, from, result) =
        accept_invitation-cases prisma hash delivers token d user_id salt ids now i db a found in
      let all =
        added_roles-eq-rows_for prisma user_id ids db.project_roles 0 i.project_roles
          db.user_project_roles distinct (λ w at same. absurd (new w at same)) in
      elim result [
        | inl (_, accepts, _) ↦
            ap (λ m. m.1.user_project_roles) accepts
            ∙ roles
            ∙ ap (λ ws. db.user_project_roles ++ ws) all
        | inr (_, throws, _) ↦
            ap (λ m. m.1.user_project_roles) throws
            ∙ roles
            ∙ ap (λ ws. db.user_project_roles ++ ws) all
      ]
