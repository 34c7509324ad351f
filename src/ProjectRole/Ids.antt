-- ===== src/ProjectRole/Ids.antt =====
-- What `addAccess` and `revokeAccess` do to the ids of a role.
use vnp_dbms_backend.Common.{
  String, ◌≡◌, sym, subst, ◌↔◌, ◌⊎◌, inl, inr, true, false, not, ◌&&◌, Option, some, List, [], ◌∷◌,
  ◌++◌, map, ok, Bool-cases, In, here, there, In-cases, In-filter, filter-In, In-append, Distinct,
  Distinct-filter, any_iff, str_eq, eq_iff, eq_self, filter, any, get_or, if◌then◌else◌,
}
use vnp_dbms_backend.Common.Prisma.{Prisma}
use vnp_dbms_backend.Permission.Types.{User}
use vnp_dbms_backend.ProjectRole.Store
use vnp_dbms_backend.ProjectRole.Store.{Db, UserProjectRole, has_id}
use vnp_dbms_backend.ProjectRole.Writes.{update-found}
use vnp_dbms_backend.ProjectRole.Service.{
  Access, is_admin, none_given, unique, merge, without, add_access, revoke_access,
}

In-unique : {x : String} (xs : List String) → In x (unique xs) ↔ In x xs
unfolding unique
In-unique [] = (λ i. i, λ i. i)
In-unique {x} (y ∷ ys) = (
  λ i. elim (In-cases i) [
    | inl e ↦ subst (λ z. In z (y ∷ ys)) (sym e) here
    | inr later ↦ there ((In-unique ys).0 (In-filter _ (unique ys) later).0)
  ],
  λ i. elim (In-cases i) [
    | inl e ↦ subst (λ z. In z (y ∷ filter (λ z'. not (str_eq y z')) (unique ys))) (sym e) here
    | inr later ↦ elim (Bool-cases (str_eq y x)) [
      | inl same ↦
          subst (λ z. In z (y ∷ filter (λ z'. not (str_eq y z')) (unique ys))) ((eq_iff y x).0 same)
            here
      | inr other ↦ there (filter-In _ (unique ys) ((In-unique ys).1 later) (rw other))
    ]
  ],
)

unique-Distinct : (xs : List String) → Distinct (unique xs)
unfolding unique
unique-Distinct [] = tt
unique-Distinct (y ∷ ys) = (
  λ i.
      (let kept = (In-filter (λ z. not (str_eq y z)) (unique ys) i).1 in
        cc (rw (eq_self y) at kept)),
  Distinct-filter _ (unique ys) (unique-Distinct ys),
)

-- The ids that an optional argument names.
abbrev pub named : Option (List String) → List String
named ids = get_or ids []

In-merge :
    (x : String) (old : List String) (added : Option (List String))
    → In x (merge old added) ↔ (In x old ⊎ In x (named added))
In-merge x old added =
    let (a, b) = In-unique {x = x} (old ++ named added) in
    let (c, d) = In-append {x = x} old (named added) in (λ i. c (a i), λ s. b (d s))

In-without :
    (x : String) (old : List String) (removed : Option (List String))
    → In x (without old removed) ↔ (In x old × ¬ In x (named removed))
In-without x old removed = (
  λ i.
      let (at, kept) = In-filter (λ id. not (any (str_eq id) (named removed))) old i in
      (at, λ j. cc (rw ((any_iff (str_eq x) (named removed)).1 (x, j, eq_self x)) at kept)),
  λ (i, absent).
      filter-In (λ id. not (any (str_eq id) (named removed))) old i
        (elim (Bool-cases (any (str_eq x) (named removed))) [
          | inl hit ↦
              let (y, j, same) = (any_iff (str_eq x) (named removed)).0 hit in
              absurd (absent (subst (λ z. In z (named removed)) (sym ((eq_iff x y).0 same)) j))
          | inr miss ↦ rw miss
        ]),
)

-- The table after the update of one document.
abbrev pub with_ids : String → List String → List String → Db → Db
with_ids id portfolio_ids property_ids db = record db {
  user_project_roles =
      map
        (λ row.
          if has_id id row
          then record row { portfolio_ids = portfolio_ids; property_ids = property_ids }
          else row)
        db.user_project_roles;
}

module _ (prisma : Prisma) (id : String) (d : Access) (user : User) (db : Db)
    (r : UserProjectRole) where
  -- For an administrator who names an id, and a role that is found, `addAccess` returns, and changes
  -- only the two lists of that role: each then holds exactly the old ids and the
  -- added ones, none of them twice.
  pub add_access_lem :
      is_admin user ≡ true
      → none_given d.portfolio_ids && none_given d.property_ids ≡ false
      → prisma.find_first (has_id id) db.user_project_roles ≡ some r
      → (ps qs : List String) × (add_access prisma id d user db
          ≡ (ok "Access added successfully to user project role", with_ids id ps qs db))
        × ((x : String) → In x ps ↔ (In x r.portfolio_ids ⊎ In x (named d.portfolio_ids)))
        × ((x : String) → In x qs ↔ (In x r.property_ids ⊎ In x (named d.property_ids)))
        × Distinct ps
        × Distinct qs
  unfolding add_access Store.find_by_id
  add_access_lem admin some_given found = (
    merge r.portfolio_ids d.portfolio_ids,
    merge r.property_ids d.property_ids,
    rw (admin, some_given, found, update-found prisma id db _ found),
    λ x. In-merge x r.portfolio_ids d.portfolio_ids,
    λ x. In-merge x r.property_ids d.property_ids,
    unique-Distinct _,
    unique-Distinct _,
  )

  -- For an administrator who names an id, and a role that is found, `revokeAccess` returns, and
  -- changes only the two lists of that role: each then holds exactly the old ids that
  -- are not among the revoked ones.
  pub revoke_access_lem :
      is_admin user ≡ true
      → none_given d.portfolio_ids && none_given d.property_ids ≡ false
      → prisma.find_first (has_id id) db.user_project_roles ≡ some r
      → (ps qs : List String) × (revoke_access prisma id d user db
          ≡ (ok "Access revoked successfully from user project role", with_ids id ps qs db))
        × ((x : String) → In x ps ↔ (In x r.portfolio_ids × ¬ In x (named d.portfolio_ids)))
        × ((x : String) → In x qs ↔ (In x r.property_ids × ¬ In x (named d.property_ids)))
  unfolding revoke_access Store.find_by_id
  revoke_access_lem admin some_given found = (
    without r.portfolio_ids d.portfolio_ids,
    without r.property_ids d.property_ids,
    rw (admin, some_given, found, update-found prisma id db _ found),
    λ x. In-without x r.portfolio_ids d.portfolio_ids,
    λ x. In-without x r.property_ids d.property_ids,
  )
