-- ===== src/UserRole/Assigned.antt =====
-- No user is left with a role that is gone.
use vnp_dbms_backend.Common.{
  ℕ, ◌≡◌, ◌≢◌, refl, sym, ap, subst, ◌∙◌, inl, inr, Bool, not, ◌&&◌, Option, none, some, List, [],
  ◌∷◌, ◌++◌, map, filter, length, arith, String, str_eq, is_empty, is_some, if◌then◌else◌, In,
  map-In, In-append, filter-In, not-In-nil, Bool-cases, Option-cases, eqb, leb, eq-false_of_ne,
  eq_self, ◌⊎◌, Error, error, err, ok, not_found, modify, ◌>>◌,
}
use vnp_dbms_backend.Common.Prisma.{Prisma}
use vnp_dbms_backend.Settings.Reorder.{map-map, map_self}
use vnp_dbms_backend.Settings.Service.{Update, new_order, updates_for}
use vnp_dbms_backend.UserRole.Service.{
  Role, Account, Db, CreateDto, UpdateDto, Call, has_id, has_name, has_role, renames, written,
  find_by_id, find_by_name, find_one, update_many, assert_column_template_exists, create, update,
  remove, reorder, run, item,
}

-- The role of each user is one of the table.
abbrev pub RolesExist : Db → Type 0
RolesExist db = (u : Account) → In u db.users → (r : Role) × In r db.roles × (r.id ≡ u.user_role_id)

abbrev KeepsId : (Role → Role) → Type 0
KeepsId f = (r : Role) → (f r).id ≡ r.id

-- What a request may do to the roles; users and templates stay.
data Changed (db : Db) : Db → Type 0 where
  unchanged : Changed db db
  added : (r : Role) → Changed db (record db { roles = db.roles ++ r ∷ [] })
  rewritten : (f : Role → Role) → KeepsId f → Changed db (record db { roles = map f db.roles })
  removed :
      (id : String)
      → ((u : Account) → In u db.users → u.user_role_id ≢ id)
      → Changed db (record db { roles = filter (λ r. not (has_id id r)) db.roles })

if_keeps : (p : Role → Bool) (f : Role → Role) → KeepsId f → KeepsId (λ r. if p r then f r else r)
if_keeps p f k r = elim (Bool-cases (p r)) [ inl hit ↦ rw hit (k r) | inr miss ↦ rw miss refl ]

nobody :
    (id : String) (users : List Account)
    → length (filter (has_role id) users) ≡ 0
    → (u : Account) → In u users
    → u.user_role_id ≢ id
nobody id users none_has u u_at e = not-In-nil (
    subst (In u) (nil (filter (has_role id) users) none_has)
      (filter-In (has_role id) users u_at (ap (λ x. str_eq x id) e ∙ eq_self id)))
  where
    nil : (us : List Account) → length us ≡ 0 → us ≡ []
    nil [] h = refl
    nil (x ∷ us) h = absurd (omega (arith, h))

RolesExist-Changed : (db db' : Db) → Changed db db' → RolesExist db → RolesExist db'
RolesExist-Changed db db' Changed.unchanged h = h
RolesExist-Changed db db' (Changed.added r) h =
    λ u u_at. let (x, x_at, is) = h u u_at in (x, (In-append db.roles _).1 (inl x_at), is)
RolesExist-Changed db db' (Changed.rewritten f k) h =
    λ u u_at. let (x, x_at, is) = h u u_at in (f x, map-In f db.roles x_at, k x ∙ is)
RolesExist-Changed db db' (Changed.removed id free) h = λ u u_at.
    let (x, x_at, is) = h u u_at in
    (
      x,
      filter-In _ db.roles x_at (rw (eq-false_of_ne x.id id (λ e. free u u_at (sym is ∙ e))) refl),
      is,
    )

module _ (prisma : Prisma) (compare : String → String → Bool) where
  Changed-update_many :
      (us : List Update) (db : Db)
      → (f : Role → Role) × KeepsId f
        × (update_many prisma us db ≡ (ok tt, record db { roles = map f db.roles }))
  unfolding update_many
  Changed-update_many [] db = (λ r. r, λ r. refl, rw (map_self db.roles) refl)
  Changed-update_many (u ∷ us) db =
      let first : Role → Role = λ r. if has_id u.id r then record r { order = u.order } else r in
      let (f, k, e) = Changed-update_many us (record db {
        roles = prisma.update (has_id u.id) (λ r. record r { order = u.order }) db.roles;
      }) in
      (
        λ r. f (first r),
        λ r. k (first r) ∙ if_keeps (has_id u.id) (λ x. record x { order = u.order }) (λ x. refl) r,
        e
            ∙ ap (λ l. (ok tt, record db { roles = l }))
                (ap (map f)
                    (prisma.rows_update (has_id u.id) (λ r. record r { order = u.order }) db.roles)
                  ∙ map-map f first db.roles),
      )

  -- The look for a template ends in one of two ways, and changes nothing.
  template :
      (id : Option String) (db : Db)
      → (assert_column_template_exists prisma id db ≡ (ok tt, db))
        ⊎ ((e : Error) × (assert_column_template_exists prisma id db ≡ (err e, db)))
  unfolding assert_column_template_exists
  template none db = inl refl
  template (some id) db = elim (Bool-cases (is_empty id)) [
    | inl empty ↦ inl (rw empty refl)
    | inr given ↦
        elim (Bool-cases (is_some (prisma.find_first (λ t. str_eq t id) db.column_templates))) [
          | inl there_is ↦ inl (rw (given, there_is) refl)
          | inr missing ↦
              inr (error not_found "Column template not found", rw (given, missing) refl)
        ]
  ]

  Changed-create : (d : CreateDto) (db : Db) → Changed db (create prisma d db).1
  unfolding create find_by_name
  Changed-create d db = elim (Option-cases (prisma.find_first (has_name d.name) db.roles)) [
    | inr (r, h) ↦ rw h Changed.unchanged
    | inl n ↦ elim (template d.user_column_template_id db) [
      | inl fine ↦ rw (n, fine, prisma.rows_create) (Changed.added _)
      | inr (e, missing) ↦ rw (n, missing) Changed.unchanged
    ]
  ]

  Changed-checked :
      (id : String) (d : UpdateDto) (r : Role) (db : Db)
      → Changed db
          ((assert_column_template_exists prisma d.user_column_template_id
              >> modify
                  (λ db. record db { roles = prisma.update (has_id id) (written d) db.roles }))
            db).1
  Changed-checked id d r db = elim (template d.user_column_template_id db) [
    | inl fine ↦
        rw (fine, prisma.rows_update)
          (Changed.rewritten _ (if_keeps (has_id id) (written d) (λ x. refl)))
    | inr (e, missing) ↦ rw missing Changed.unchanged
  ]

  Changed-update : (id : String) (d : UpdateDto) (db : Db) → Changed db (update prisma id d db).1
  unfolding update find_one find_by_id find_by_name
  Changed-update id d db = elim (Option-cases (prisma.find_first (has_id id) db.roles)) [
    | inl n ↦ rw n Changed.unchanged
    | inr (r, h) ↦ elim (Option-cases d.name) [
      | inl n ↦ simp (h, n) (Changed-checked id d r db)
      | inr (name, n) ↦
          elim (Bool-cases
            (renames name r && is_some (prisma.find_first (has_name name) db.roles))) [
              | inl taken ↦ simp (h, n, taken) Changed.unchanged
              | inr free ↦ simp (h, n, free) (Changed-checked id d r db)
            ]
    ]
  ]

  Changed-remove :
      (id password user_id : String) (db : Db)
      → Changed db (remove prisma compare id password user_id db).1
  unfolding remove find_one find_by_id
  Changed-remove id password user_id db =
      elim (Option-cases (prisma.find_first (λ u. str_eq u.id user_id) db.users)) [
        | inl n ↦ rw n Changed.unchanged
        | inr (u, hu) ↦ elim (Bool-cases (compare password u.password)) [
          | inr wrong ↦ rw (hu, wrong) Changed.unchanged
          | inl right ↦ elim (Option-cases (prisma.find_first (has_id id) db.roles)) [
            | inl n ↦ rw (hu, right, n) Changed.unchanged
            | inr (r, hr) ↦ elim (Bool-cases (leb 1 (prisma.count (has_role id) db.users))) [
              | inl used ↦ rw (hu, right, hr, used) Changed.unchanged
              | inr free ↦
                  let none_has : length (filter (has_role id) db.users) ≡ 0 =
                    ground (arith, free, prisma.rows_count (has_role id) db.users) in
                  rw (hu, right, hr, free, prisma.rows_delete)
                    (Changed.removed id (nobody id db.users none_has))
            ]
          ]
        ]
      ]

  Changed-reorder : (id : String) (new : ℕ) (db : Db) → Changed db (reorder prisma id new db).1
  unfolding reorder find_one find_by_id
  Changed-reorder id new db = elim (Option-cases (prisma.find_first (has_id id) db.roles)) [
    | inl n ↦ rw n Changed.unchanged
    | inr (r, h) ↦ elim (Bool-cases (eqb r.order new)) [
      | inl same ↦ rw (h, same) Changed.unchanged
      | inr other ↦
          let us : List Update =
            updates_for (new_order id r.order new)
              (map item (prisma.ordered_by (λ x. x.order) db.roles)) in
          let (f, k, e) = Changed-update_many us db in rw (h, other, e) (Changed.rewritten f k)
    ]
  ]

  run-Changed : (c : Call) (db : Db) → Changed db (run prisma compare c db)
  unfolding run
  run-Changed (Call.creates d) db = Changed-create d db
  run-Changed (Call.updates id d) db = Changed-update id d db
  run-Changed (Call.removes id password user_id) db = Changed-remove id password user_id db
  run-Changed (Call.reorders id new) db = Changed-reorder id new db

  -- Let the role of each user be one of the table; then this is so after every request to the service (create,
  -- update, remove, reorder), whether it succeeds or throws.
  pub run-RolesExist : (c : Call) (db : Db) → RolesExist db → RolesExist (run prisma compare c db)
  run-RolesExist c db h = RolesExist-Changed db _ (run-Changed c db) h
