-- ===== src/Settings/Remove.antt =====
-- `remove`: who may do it, and what it does to the tables.
use Prim.Native.String.{◌++◌ as append}
use vnp_dbms_backend.Common.{
  String, ◌≡◌, ◌≢◌, refl, ap, ◌∙◌, ◌⊎◌, inl, inr, Bool, true, false, not, ◌&&◌, some, any, fun_ext,
  List, [], ◌∷◌, map, filter, In, Bool-cases, Option-cases, eq_iff, str_eq, if◌then◌else◌, Error,
  error, bad_request, not_found, ap₂, ok, err, ne_of_eq-false,
}
use vnp_dbms_backend.Common.Prisma.{Prisma}
use vnp_dbms_backend.Settings.Service.{
  Item, Account, Db, Setting, Referrer, has_id, refers, repoint, find_by_id, remove, missing,
}
use vnp_dbms_backend.Settings.References.{redirected, redirected_in, repoint-eq-map}

-- All columns at once: those of the list that refer to the item refer to its replacement.
abbrev pub handed_over : List String → (id replacement : String) → Referrer → Referrer
handed_over columns id replacement p = record p {
  ref = λ c. if any (str_eq c) columns && refers c id p then some replacement else p.ref c;
}

either : {A : Type 0} (b c : Bool) (x y : A) → c ≡ false ⊎ (x ≡ y) → (if b && c then x else y) ≡ y
either true c x y (inl e) = rw e refl
either true true x y (inr e) = e
either true false x y (inr e) = refl
either false c x y e = refl

ref-redirected-eq :
    (columns : List String) (id replacement : String) (p : Referrer) (c : String)
    → (redirected id replacement columns p).ref c ≡ (handed_over columns id replacement p).ref c
unfolding redirected
ref-redirected-eq [] id replacement p c = refl
ref-redirected-eq (d ∷ ds) id replacement p c =
    ref-redirected-eq ds id replacement (redirected_in id replacement d p) c
    ∙ elim (Bool-cases (refers d id p)) [
      | inr miss ↦ elim (Bool-cases (str_eq c d)) [
        | inl same ↦
            let no_match : refers c id p ≡ false =
              ap (λ z. refers z id p) ((eq_iff c d).0 same) ∙ miss in
            rw (miss, same, no_match)
              (either (any (str_eq c) ds) false (some replacement) (p.ref c) (inl refl))
        | inr other ↦ rw (miss, other) refl
      ]
      | inl hit ↦ elim (Bool-cases (str_eq c d)) [
        | inl same ↦
            let match : refers c id p ≡ true =
              ap (λ z. refers z id p) ((eq_iff c d).0 same) ∙ hit in
            rw (hit, same, match)
              (either (any (str_eq c) ds) _ (some replacement) (some replacement) (inr refl))
        | inr other ↦ rw (hit, refers, other) refl
      ]
    ]

id-redirected :
    (columns : List String) (id replacement : String) (p : Referrer)
    → (redirected id replacement columns p).id ≡ p.id
unfolding redirected
id-redirected [] id replacement p = refl
id-redirected (d ∷ ds) id replacement p =
    id-redirected ds id replacement _
    ∙ elim (Bool-cases (refers d id p)) [ inl hit ↦ rw hit refl | inr miss ↦ rw miss refl ]

redirected-eq :
    (columns : List String) (id replacement : String) (p : Referrer)
    → redirected id replacement columns p ≡ handed_over columns id replacement p
redirected-eq columns id replacement p =
    ap₂ (λ a f. record { id = a; ref = f }) (id-redirected columns id replacement p)
      (fun_ext (ref-redirected-eq columns id replacement p))

-- The user is one of the table, and the password is theirs.
abbrev pub Confirmed : (String → String → Bool) → (user_id password : String) → Db → Type 0
Confirmed compare user_id password db =
    (u : Account) × In u db.users × (u.id ≡ user_id) × (compare password u.password ≡ true)

abbrev pub Present : String → Db → Type 0
Present id db = (i : Item) × In i db.items × (i.id ≡ id)

module _ (prisma : Prisma) (compare : String → String → Bool) (s : Setting) where
  repoint-handed_over :
      (columns : List String) (id replacement : String) (rows : List Referrer)
      → repoint prisma id replacement columns rows ≡ map (handed_over columns id replacement) rows
  repoint-handed_over columns id replacement rows =
      repoint-eq-map id replacement prisma columns rows
      ∙ ap (λ f. map f rows) (fun_ext (redirected-eq columns id replacement))

  found_item :
      (id : String) (db : Db) {i : Item}
      → prisma.find_first (has_id id) db.items ≡ some i
      → Present id db
  found_item id db {i} h =
      let (at, is) = prisma.found_in (has_id id) db.items h in (i, at, (eq_iff i.id id).0 is)

  -- Either `remove` throws and changes nothing, or the user gave their password, the item and its
  -- replacement are two items of the table, and afterwards the item is gone, every column that the service
  -- names and that referred to it refers to the replacement, and everything else is as it was.
  pub remove-or_throws :
      (id password replacement user_id : String) (db : Db)
      → ((e : Error) × (remove prisma s compare id password replacement user_id db ≡ (err e, db)))
        ⊎ (Confirmed compare user_id password db
            × (id ≢ replacement)
            × Present id db
            × Present replacement db
            × (message : String) × (remove prisma s compare id password replacement user_id db ≡ (
              ok message,
              record db {
                properties = map (handed_over s.columns id replacement) db.properties;
                portfolios = map (handed_over s.portfolio_columns id replacement) db.portfolios;
                items = filter (λ x. not (has_id id x)) db.items;
              },
            )))
  unfolding remove find_by_id
  remove-or_throws id password replacement user_id db =
      elim (Option-cases (prisma.find_first (λ u. str_eq u.id user_id) db.users)) [
        | inl n ↦ inl (error not_found "User not found", rw n refl)
        | inr (u, hu) ↦ elim (Bool-cases (compare password u.password)) [
          | inr wrong ↦ inl (error bad_request "Invalid password", rw (hu, wrong) refl)
          | inl right ↦ elim (Bool-cases (str_eq id replacement)) [
            | inl same ↦ inl (
              error bad_request (
                  append "Replacement "
                    (append s.lower_noun " must be different from the one being deleted")),
              rw (hu, right, same) refl,
            )
            | inr other ↦ elim (Option-cases (prisma.find_first (has_id id) db.items)) [
              | inl n ↦ inl (error not_found (missing s), rw (hu, right, other, n) refl)
              | inr (i, hi) ↦
                  elim (Option-cases (prisma.find_first (has_id replacement) db.items)) [
                    | inl n ↦ inl (
                      error not_found (append "Replacement " (append s.lower_noun " not found")),
                      rw (hu, right, other, hi, n) refl,
                    )
                    | inr (r, hr) ↦ inr (
                      (
                        u,
                        (prisma.found_in _ db.users hu).0,
                        (eq_iff u.id user_id).0 (prisma.found_in _ db.users hu).1,
                        right,
                      ),
                      ne_of_eq-false id replacement other,
                      found_item id db hi,
                      found_item replacement db hr,
                      append s.noun " deleted successfully",
                      rw
                          (
                            hu,
                            right,
                            other,
                            hi,
                            hr,
                            prisma.rows_delete,
                            repoint-handed_over s.columns id replacement db.properties,
                            repoint-handed_over s.portfolio_columns id replacement db.portfolios,
                          )
                          refl,
                    )
                  ]
            ]
          ]
        ]
      ]
