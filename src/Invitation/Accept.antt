-- ===== src/Invitation/Accept.antt =====
-- The acceptance of an invitation: what it makes.
use vnp_dbms_backend.Common.{
  ℕ, String, In, ◌≡◌, refl, ap, ◌∙◌, inl, inr, ◌⊎◌, Bool, true, false, none, some, List, [], ◌∷◌,
  ◌++◌, map, Bool-cases, any, str_eq, if◌then◌else◌, ok, err, Result, error, internal, Exec, ◌>>=◌,
  pure, Result-cases,
}
use vnp_dbms_backend.Common.Prisma.{Prisma}
use vnp_dbms_backend.ProjectRole.Store.{UserProjectRole}
use vnp_dbms_backend.Invitation.Granted.{
  added_roles, added_roles-ComesFrom, ComesFrom, create_feature_permissions-appends,
  assign_all-appends,
}
use vnp_dbms_backend.Invitation.Store
use vnp_dbms_backend.Invitation.Store.{
  Invitation, accepted, User, FeaturePermission, Mail, Db, has_id, has_token, to_lower, clashes,
  ProjectRoleInvitation,
}
use vnp_dbms_backend.Invitation.Service.{
  AcceptInvitation, is_open, is_over, permission_entries, account, create_user_permissions,
  create_project_role_assignments, assign_all, get_invitation_by_token, accept_invitation,
}

-- An invitation once it is accepted, and what that does to the table.
abbrev pub accepted_by : String → ℕ → Invitation → Invitation
accepted_by user_id now x = record x {
  status = accepted;
  invited_user_id = some user_id;
  accepted_at = some now;
}

abbrev pub mark : String → String → ℕ → Invitation → Invitation
mark id user_id now x = if has_id id x then accepted_by user_id now x else x

-- The access that an invitation lists: one permission for each portfolio, subportfolio and property of it.
abbrev pub access_of : String → Invitation → List FeaturePermission
access_of user_id i =
    map
      (λ p. record {
        user_id = user_id;
        portfolio_id = some p;
        subportfolio_id = none;
        property_id = none;
      })
      i.portfolio_ids
    ++ map
        (λ p. record {
          user_id = user_id;
          portfolio_id = none;
          subportfolio_id = some p;
          property_id = none;
        })
        i.subportfolio_ids
    ++ map
        (λ p. record {
          user_id = user_id;
          portfolio_id = none;
          subportfolio_id = none;
          property_id = some p;
        })
        i.property_ids

module _ (prisma : Prisma) (hash : String → String → String) (delivers : Mail → Bool) where
  module _ (token : String) (d : AcceptInvitation) (user_id salt : String) (ids : ℕ → String)
      (now : ℕ) (i : Invitation) (db : Db) where
    new_user : User
    new_user = account prisma hash delivers i d user_id salt

    with_user : Db
    with_user = record db { users = db.users ++ new_user ∷ [] }

    pub granted : Db
    granted =
        (create_project_role_assignments prisma hash delivers user_id ids i
          (create_user_permissions prisma hash delivers user_id i with_user).1).1

    -- The rows of `user_project_roles` that the project roles of the invitation add.
    abbrev pub assigned : List UserProjectRole
    assigned =
        added_roles prisma user_id ids db.project_roles 0 i.project_roles db.user_project_roles

    granted-eq : granted ≡ record with_user {
      feature_permissions = db.feature_permissions ++ access_of user_id i;
      user_project_roles = db.user_project_roles ++ assigned;
    }
    unfolding granted create_project_role_assignments create_user_permissions permission_entries
        with_user
    granted-eq =
        ap (λ s. (assign_all prisma hash delivers user_id ids 0 i.project_roles s).1)
          (create_feature_permissions-appends prisma (access_of user_id i) with_user)
        ∙ assign_all-appends prisma hash delivers user_id ids 0 i.project_roles _

    pub granted-rows : granted.invitations ≡ db.invitations
    unfolding with_user
    granted-rows = ap (λ s. s.invitations) granted-eq

    -- The answer after the last write.
    abbrev answer : Result Invitation × Db → Result (User × Invitation) × Db
    answer (ok w, s) = (ok (new_user, w), s)
    answer (err e, s) = (err e, s)

    bind-answer :
        (m : Exec Db Invitation) (s : Db) → (m >>= λ w. pure (new_user, w)) s ≡ answer (m s)
    bind-answer m s = elim (Result-cases (m s).0) [ inl (w, e) ↦ rw e | inr (x, e) ↦ rw e ]

    -- The checks of `acceptInvitation` hold.
    pub record Acceptable : Type 0 where
      pub found : prisma.find_first (has_token token) db.invitations ≡ some i
      pub waiting : is_open i ≡ true
      pub in_time : is_over now i ≡ false
      pub free : prisma.find_first (λ u. str_eq u.email (to_lower i.email)) db.users ≡ none

    accepts :
        Acceptable
        → accept_invitation prisma hash delivers token d user_id salt ids now db
          ≡ answer (Store.mark_as_accepted prisma i.id user_id now granted)
    unfolding accept_invitation get_invitation_by_token Store.find_by_token Store.find_user_by_email
        Store.create_user create_project_role_assignments create_user_permissions granted new_user
        with_user
    accepts a =
        rw (a.found, a.waiting, a.in_time, a.free, prisma.rows_create)
          (bind-answer (Store.mark_as_accepted prisma i.id user_id now) granted)

    answer-rows : (m : Result Invitation × Db) → (answer m).1.invitations ≡ m.1.invitations
    answer-rows (ok w, s) = refl
    answer-rows (err e, s) = refl

    -- The invitations after an acceptable call are those after its last write.
    pub accepts-rows :
        Acceptable
        → (accept_invitation prisma hash delivers token d user_id salt ids now db).1.invitations
          ≡ (Store.mark_as_accepted prisma i.id user_id now granted).1.invitations
    accepts-rows a =
        ap (λ m. m.1.invitations) (accepts a)
        ∙ answer-rows (Store.mark_as_accepted prisma i.id user_id now granted)

    -- If the token finds an invitation that is pending and not over, and no user has its email in lower case, and the id
    -- finds the same invitation, then `acceptInvitation` stores the account, with the role of the invitation
    -- and verified, one permission for each portfolio, subportfolio and property of the invitation, and,
    -- after the roles that are stored, roles that each come from an entry of the invitation and the
    -- project role that matches it. If no other invitation for that email is accepted already, it returns the account and
    -- the invitation, which is accepted in the table. If there is another, it throws, since the
    -- key of email and status is unique: all of these stay, and the invitation stays pending.
    pub accept_invitation-cases :
        Acceptable
        → prisma.find_first (has_id i.id) db.invitations ≡ some i
        → (db' : Db) × (db'.users ≡ db.users ++ account prisma hash delivers i d user_id salt ∷ [])
          × (db'.feature_permissions ≡ db.feature_permissions ++ access_of user_id i)
          × (db'.user_project_roles ≡ db.user_project_roles ++ assigned)
          × ((w : UserProjectRole)
              → In w assigned
              → ComesFrom prisma user_id ids db.project_roles i.project_roles w)
          × (((any (clashes prisma (accepted_by user_id now i)) db.invitations ≡ false)
                × (accept_invitation prisma hash delivers token d user_id salt ids now db ≡ (
                  ok (account prisma hash delivers i d user_id salt, accepted_by user_id now i),
                  db',
                ))
                × (db'.invitations ≡ map (mark i.id user_id now) db.invitations))
              ⊎ ((any (clashes prisma (accepted_by user_id now i)) db.invitations ≡ true)
                  × (accept_invitation prisma hash delivers token d user_id salt ids now db
                      ≡ (err (error internal "Unique constraint failed"), db'))
                  × (db'.invitations ≡ db.invitations)))
    unfolding Store.mark_as_accepted Store.update new_user with_user
    accept_invitation-cases a found =
        let users = ap (λ s. s.users) granted-eq in
        let rows = granted-rows in
        let permissions = ap (λ s. s.feature_permissions) granted-eq in
        let roles = ap (λ s. s.user_project_roles) granted-eq in
        let from =
          added_roles-ComesFrom prisma user_id ids db.project_roles 0 i.project_roles
            db.user_project_roles in
        elim (Bool-cases (any (clashes prisma (accepted_by user_id now i)) db.invitations)) [
          | inl taken ↦ (
            granted,
            users,
            permissions,
            roles,
            from,
            inr (taken, accepts a ∙ rw (rows, found, taken), rows),
          )
          | inr free ↦ (
            record granted { invitations = map (mark i.id user_id now) db.invitations },
            users,
            permissions,
            roles,
            from,
            inl (free, accepts a ∙ rw (rows, found, free, prisma.rows_update (has_id i.id)), refl),
          )
        ]
