-- ===== src/Auth/SuperAdmin.antt =====
-- What `createSuperAdmin` refuses once a user has the role of the super administrators, and what that role allows.
-- (`inviteUser` stores a user with any role, this one too.)
use vnp_dbms_backend.Common.{
  String, ◌≡◌, refl, sym, subst, ◌∙◌, inl, inr, ◌⊎◌, true, Option, none, some, List, [], ◌∷◌, ◌++◌,
  map, arith, Option-cases, In, here, In-append, map-In, str_eq, eq_iff, if◌then◌else◌, ok, err,
  error, conflict, returned-injective, every,
}
use vnp_dbms_backend.Common.Prisma.{Prisma}
use vnp_dbms_backend.Permission.Types.{UserRole, Permission, full, all}
use vnp_dbms_backend.Permission.Types
use vnp_dbms_backend.Permission.Util.{is_user_super_admin, is_super_admin}
use vnp_dbms_backend.Auth.Store
use vnp_dbms_backend.Auth.Store.{Db, User}
use vnp_dbms_backend.Auth.External.{External}
use vnp_dbms_backend.Auth.Session.{AuthSession}
use vnp_dbms_backend.Auth.Admin.{
  CreateSuperAdmin, new_role, raised, is_super_role, verified, upsert_role, create_super_admin,
}
use vnp_dbms_backend.Auth.Otp.{by_email}
use vnp_dbms_backend.Auth.Accounts.{find_first-total}

-- Every role with the name of the super administrators has this id: the name is unique.
abbrev pub OneSuperRole : String → List UserRole → Type 0
OneSuperRole id roles = (x : UserRole) → In x roles → is_super_role x ≡ true → x.id ≡ id

-- The name of a role is unique, as far as the super administrators' goes.
abbrev pub UniqueSuperRole : List UserRole → Type 0
UniqueSuperRole roles =
    (x y : UserRole)
    → In x roles
    → In y roles
    → is_super_role x ≡ true
    → is_super_role y ≡ true
    → x.id ≡ y.id

abbrev pub holder : String → String → UserRole → Types.User
holder user_id email r = record { id = user_id; email = email; user_role_id = r.id; role = some r }

-- The permissions that the upsert leaves alone in a role that is there.
abbrev pub other_permissions : UserRole → List (Option Permission)
other_permissions r =
    r.portfolio_permission ∷ r.property_permission ∷ r.audit_permission ∷ r.user_permission
    ∷ r.system_settings_permission ∷ r.bank_details_permission ∷ []

abbrev raised_if : UserRole → UserRole
raised_if x = if is_super_role x then raised x else x

module _ (prisma : Prisma) (ext : External) where
  -- What the upsert gives: a super role whose id the name determines from then on.
  pub record Upserted (id : String) (db : Db) : Type 0 where
    pub role : UserRole
    pub after : Db
    pub gives : upsert_role prisma ext id db ≡ (ok role, after)
    pub known : In role after.user_roles
    pub super : is_super_role role ≡ true
    pub users : after.users ≡ db.users

  upserted : (id : String) (db : Db) → Upserted id db
  unfolding upsert_role
  upserted id db = elim (Option-cases (prisma.find_first is_super_role db.user_roles)) [
    | inl e ↦ record {
      role = new_role id;
      after = record db { user_roles = db.user_roles ++ new_role id ∷ [] };
      gives = rw (e, prisma.rows_create);
      known = (In-append db.user_roles _).1 (inr here);
      super = refl;
      users = refl;
    }
    | inr (r, e) ↦
        let (at, hit) = prisma.found_in is_super_role db.user_roles e in
        record {
          role = raised r;
          after = record db { user_roles = map (raised_if) db.user_roles };
          gives = rw (e, prisma.rows_update);
          known =
              subst (λ x. In x (map (raised_if) db.user_roles)) (rw hit)
                (map-In (raised_if) db.user_roles at);
          super = hit;
          users = refl;
        }
  ]

  -- Whether the permission helpers take the holder of the role that the upsert gives for a super
  -- administrator: they do where there was no role of that name; where there was one, they do exactly
  -- if its permissions for portfolios, properties, audits, users, settings and bank details
  -- were all full before, since the upsert writes only the two others.
  pub upsert_role-powers :
      (id user_id email : String) (db : Db)
      → ((prisma.find_first is_super_role db.user_roles ≡ none)
          × ((upsert_role prisma ext id db).0 ≡ ok (new_role id))
          × (is_user_super_admin (holder user_id email (new_role id)) ≡ true))
        ⊎ ((r : UserRole) × (prisma.find_first is_super_role db.user_roles ≡ some r)
            × ((upsert_role prisma ext id db).0 ≡ ok (raised r))
            × (is_user_super_admin (holder user_id email (raised r))
                ≡ every is_super_admin (other_permissions r)))
  unfolding upsert_role is_user_super_admin is_super_admin
  upsert_role-powers id user_id email db =
      elim (Option-cases (prisma.find_first is_super_role db.user_roles)) [
        | inl e ↦ inl (e, rw e, refl)
        | inr (r, e) ↦ inr (r, e, rw e, ground arith)
      ]

  -- Where the name determines the id of a role that is there, the upsert gives a role with that id.
  upserted-id :
      (id key : String) (db : Db) (x : UserRole)
      → In x db.user_roles
      → is_super_role x ≡ true
      → OneSuperRole key db.user_roles
      → (role : UserRole) × (after : Db) × (upsert_role prisma ext id db ≡ (ok role, after))
        × (role.id ≡ key)
        × (after.users ≡ db.users)
  unfolding upsert_role
  upserted-id id key db x i hit one =
      let (r, e, at, r_hit) = find_first-total prisma is_super_role db.user_roles i hit in
      (
        raised r,
        record db { user_roles = prisma.update is_super_role raised db.user_roles },
        rw e,
        one r at r_hit,
        refl,
      )

module _ (prisma : Prisma) (ext : External) (d : CreateSuperAdmin) (user_id role_id salt : String)
    (db : Db) where
  -- Once the table of roles holds a role of super administrators, whose id its name determines, and a user
  -- of that role is stored, `createSuperAdmin` throws a conflict, whatever the arguments, and leaves the
  -- users as they are.
  pub create_super_admin-refused :
      (x : UserRole) (u : User)
      → In x db.user_roles
      → is_super_role x ≡ true
      → OneSuperRole x.id db.user_roles
      → In u db.users
      → u.user_role_id ≡ x.id
      → (m : String) × (db' : Db) × (create_super_admin prisma ext d user_id role_id salt db
          ≡ (err (error conflict m), db'))
        × (db'.users ≡ db.users)
  unfolding create_super_admin Store.find_user_by_email
  create_super_admin-refused x u i hit one u_in holds =
      elim (Option-cases (prisma.find_first (by_email ext d.email) db.users)) [
        | inr (v, e) ↦ ("A user with this email already exists", db, rw e, refl)
        | inl free ↦
            let (role, after, gives, same, users) =
              upserted-id prisma ext role_id x.id db x i hit one in
            let (v, e, _, _) =
              find_first-total prisma (λ w. str_eq w.user_role_id role.id) after.users
                (subst (In u) (sym users) u_in)
                ((eq_iff u.user_role_id role.id).1 (holds ∙ sym same)) in
            (
              "A Super Admin already exists. Only one Super Admin account is allowed.",
              after,
              rw (free, gives, e),
              users,
            )
      ]

module _ (prisma : Prisma) (ext : External) (d : CreateSuperAdmin) (user_id role_id salt : String)
    (db db' : Db) (s : AuthSession) where
  -- Once `createSuperAdmin` has returned, it throws a conflict, whatever its arguments, in every later state that still
  -- has the roles and users it left, and leaves the users as they are; the name of a role is unique.
  pub create_super_admin-once :
      (later : Db) (again : CreateSuperAdmin) (user_id' role_id' salt' : String)
      → create_super_admin prisma ext d user_id role_id salt db ≡ (ok s, db')
      → ((x : UserRole) → In x db'.user_roles → In x later.user_roles)
      → ((u : User) → In u db'.users → In u later.users)
      → UniqueSuperRole later.user_roles
      → (m : String) × (after : Db) × (create_super_admin prisma ext again user_id' role_id' salt'
            later
          ≡ (err (error conflict m), after))
        × (after.users ≡ later.users)
  unfolding create_super_admin Store.find_user_by_email Store.create_user
  create_super_admin-once later again user_id' role_id' salt' h keeps_roles keeps_users one =
      elim (Option-cases (prisma.find_first (by_email ext d.email) db.users)) [
        | inr (v, e) ↦ cc (rw e at h)
        | inl free ↦
            let u = upserted prisma ext role_id db in
            elim (Option-cases
              (prisma.find_first (λ w. str_eq w.user_role_id u.role.id) u.after.users)) [
                | inr (v, e) ↦ cc (rw (free, u.gives, e) at h)
                | inl no_holder ↦
                    let new : User = verified prisma ext d user_id u.role.id salt in
                    let stored : List User = u.after.users ++ new ∷ [] in
                    let (v, e, _, _) =
                      find_first-total prisma (by_email ext d.email) stored
                        ((In-append u.after.users _).1 (inr here))
                        (ext.email_matches-escape d.email) in
                    let (_, same) = returned-injective (
                      rw (free, u.gives, no_holder, prisma.rows_create new u.after.users, e) at
                        h) in
                    let role_in : In u.role later.user_roles =
                      keeps_roles u.role (subst (λ x. In u.role x.user_roles) same u.known) in
                    let user_in : In new later.users = keeps_users new (
                      subst (λ x. In new x.users) same
                        ((In-append u.after.users _).1 (inr here))) in
                    create_super_admin-refused prisma ext again user_id' role_id' salt' later u.role
                      new role_in u.super (λ x x_in hit. one x u.role x_in role_in hit u.super)
                      user_in refl
              ]
      ]
