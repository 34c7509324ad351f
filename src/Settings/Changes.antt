-- ===== src/Settings/Changes.antt =====
-- What a request to one of the services may do to the tables.
use vnp_dbms_backend.Common.{
  ℕ, String, ◌≡◌, ◌≢◌, refl, sym, inl, inr, Bool, false, not, ◌&&◌, none, some, is_some, [], ◌∷◌,
  ◌++◌, map, filter, All, In, Bool-cases, Option-cases, eq_iff, str_eq, if◌then◌else◌, eqb,
  ne_of_eq-false,
}
use vnp_dbms_backend.Common.Prisma.{Prisma}
use vnp_dbms_backend.Settings.Service.{
  Item, Db, UpdateDto, Setting, Call, has_id, has_name, renames, written, new_order, next_order,
  updates_for, find_by_id, find_by_name, find_all, write, repoint, create, update, toggle, reorder,
  remove, run,
}
use vnp_dbms_backend.Settings.Reorder.{reordered, items-update_many}

-- A write that leaves the id and the order of an item alone
abbrev pub KeepsPlace : (Item → Item) → Type 0
KeepsPlace f = (x : Item) → ((f x).id ≡ x.id) × ((f x).order ≡ x.order)

-- The id that the database gives a new item is new.
abbrev pub Fresh : Call → Db → Type 0
Fresh (Call.creates id name is_active) db = All (λ i. has_id id i ≡ false) db.items
Fresh c db = Unit

module _ (prisma : Prisma) (compare : String → String → Bool) (s : Setting) where
  -- The tables after a request: as they were, with a new item, with one item changed, with an item
  -- moved, or without an item whose replacement took over the references to it.
  pub data Changed (db : Db) : Db → Type 0 where
    unchanged : Changed db db
    added :
        (i : Item)
        → All (λ x. has_id i.id x ≡ false) db.items
        → i.order ≡ next_order prisma s db.items
        → Changed db (record db { items = db.items ++ i ∷ [] })
    changed :
        (id : String) (f : Item → Item)
        → KeepsPlace f
        → Changed db (record db { items = map (λ x. if has_id id x then f x else x) db.items })
    moved :
        (i : Item) (new : ℕ)
        → In i db.items
        → Changed db (record db {
          items =
              map
                (reordered (
                  updates_for
                    (new_order i.id i.order new)
                    (prisma.ordered_by (λ x. x.order) db.items)))
                db.items;
        })
    replaced :
        (id replacement_id : String)
        → id ≢ replacement_id
        → (r : Item) → In r db.items
        → r.id ≡ replacement_id
        → Changed db (record db {
          properties = repoint prisma id replacement_id s.columns db.properties;
          portfolios = repoint prisma id replacement_id s.portfolio_columns db.portfolios;
          items = filter (λ x. not (has_id id x)) db.items;
        })

  Changed-create :
      (id name : String) (is_active : Bool) (db : Db)
      → All (λ x. has_id id x ≡ false) db.items
      → Changed db (create prisma s id name is_active db).1
  unfolding create find_by_name
  Changed-create id name is_active db fresh =
      elim (Option-cases (prisma.find_first (has_name name) db.items)) [
        | inl n ↦ rw (n, prisma.rows_create) (added _ fresh refl)
        | inr (i, h) ↦ rw h unchanged
      ]

  Changed-update : (id : String) (d : UpdateDto) (db : Db) → Changed db (update prisma s id d db).1
  unfolding update find_by_id find_by_name write
  Changed-update id d db = elim (Option-cases (prisma.find_first (has_id id) db.items)) [
    | inl n ↦ rw n unchanged
    | inr (i, h) ↦ elim (Option-cases d.name) [
      | inl n ↦
          rw (h, n, prisma.rows_update)
            (changed id (written (record { name = none; is_active = d.is_active }))
              (λ x. (refl, refl)))
      | inr (name, n) ↦
          elim (Bool-cases
            (renames (some name) i && is_some (prisma.find_first (has_name name) db.items))) [
              | inl taken ↦ rw (h, n, taken) unchanged
              | inr free ↦
                  rw (h, n, free, prisma.rows_update)
                    (changed id (written (record { name = some name; is_active = d.is_active }))
                      (λ x. (refl, refl)))
            ]
    ]
  ]

  Changed-toggle : (id : String) (db : Db) → Changed db (toggle prisma s id db).1
  unfolding toggle find_by_id write
  Changed-toggle id db = elim (Option-cases (prisma.find_first (has_id id) db.items)) [
    | inl n ↦ rw n unchanged
    | inr (i, h) ↦ rw (h, prisma.rows_update) (changed id _ (λ x. (refl, refl)))
  ]

  Changed-reorder : (id : String) (new : ℕ) (db : Db) → Changed db (reorder prisma s id new db).1
  unfolding reorder find_by_id find_all
  Changed-reorder id new db = elim (Option-cases (prisma.find_first (has_id id) db.items)) [
    | inl n ↦ rw n unchanged
    | inr (i, h) ↦ elim (Bool-cases (eqb i.order new)) [
      | inl same ↦ rw (h, same) unchanged
      | inr other ↦
          let (i_at, is) = prisma.found_in (has_id id) db.items h in
          rw (h, other, sym ((eq_iff i.id id).0 is), items-update_many prisma _ db)
            (moved i new i_at)
    ]
  ]

  Changed-remove :
      (id password replacement_id user_id : String) (db : Db)
      → Changed db (remove prisma s compare id password replacement_id user_id db).1
  unfolding remove find_by_id
  Changed-remove id password replacement_id user_id db =
      elim (Option-cases (prisma.find_first (λ u. str_eq u.id user_id) db.users)) [
        | inl n ↦ rw n unchanged
        | inr (u, hu) ↦ elim (Bool-cases (compare password u.password)) [
          | inr wrong ↦ rw (hu, wrong) unchanged
          | inl right ↦ elim (Bool-cases (str_eq id replacement_id)) [
            | inl same ↦ rw (hu, right, same) unchanged
            | inr other ↦ elim (Option-cases (prisma.find_first (has_id id) db.items)) [
              | inl n ↦ rw (hu, right, other, n) unchanged
              | inr (i, hi) ↦
                  elim (Option-cases (prisma.find_first (has_id replacement_id) db.items)) [
                    | inl n ↦ rw (hu, right, other, hi, n) unchanged
                    | inr (r, hr) ↦
                        let (r_at, is) = prisma.found_in (has_id replacement_id) db.items hr in
                        rw (hu, right, other, hi, hr, prisma.rows_delete)
                          (replaced id replacement_id (ne_of_eq-false id replacement_id other) r
                            r_at ((eq_iff r.id replacement_id).0 is))
                  ]
            ]
          ]
        ]
      ]

  pub run-Changed : (c : Call) (db : Db) → Fresh c db → Changed db (run prisma compare s c db)
  unfolding run
  run-Changed (Call.creates id name is_active) db fresh = Changed-create id name is_active db fresh
  run-Changed (Call.updates id d) db fresh = Changed-update id d db
  run-Changed (Call.toggles id) db fresh = Changed-toggle id db
  run-Changed (Call.reorders id new) db fresh = Changed-reorder id new db
  run-Changed (Call.removes id password replacement_id user_id) db fresh =
      Changed-remove id password replacement_id user_id db
