-- ===== src/Settings/Kept.antt =====
-- The requests to the six services one by one: each keeps WellFormed.
use vnp_dbms_backend.Common.{
  suc, ◌≤◌, String, ◌≡◌, ◌≢◌, refl, sym, ap, subst, ◌∙◌, ◌⊎◌, inl, inr, Bool, false, not, some,
  List, [], ◌∷◌, ◌++◌, filter, arith, All, In, In-cases, In-map, In-append, In-filter, filter-In,
  All-In, Bool-cases, Option-cases, eq_self, str_eq, if◌then◌else◌, not-In-nil, eq-false_of_ne,
}
use vnp_dbms_backend.Common.Prisma.{Prisma}
use vnp_dbms_backend.Settings.Service.{
  Item, Referrer, Db, Setting, Call, has_id, next_order, repoint, run,
}
use vnp_dbms_backend.Settings.WellFormed.{
  Exists, Refers, WellFormed, Refers-mono, WellFormed-items, WellFormed-moved,
}
use vnp_dbms_backend.Settings.Services.{
  Kind, of_priority, of_billing_type, of_frequency, of_processor, of_service_type, of_currency,
  setting, run_service, run_priority, run_billing_type, run_frequency, run_processor,
  run_service_type, run_currency, priority, billing_type, frequency, processor, service_type,
  currency,
}
use vnp_dbms_backend.Settings.References.{
  redirected, repoint-eq-map, ref-redirected, redirected-clears,
}
use vnp_dbms_backend.Settings.Changes.{Changed, KeepsPlace, run-Changed, Fresh}

In-snoc : {A : Type 0} {x y : A} (xs : List A) → In x (xs ++ y ∷ []) → In x xs ⊎ (x ≡ y)
In-snoc {A} {x} {y} xs at = elim ((In-append xs (y ∷ [])).0 at) [
  | inl old ↦ inl old
  | inr new ↦ elim (In-cases new) [ inl e ↦ inr e | inr none_left ↦ absurd (not-In-nil none_left) ]
]

-- Distinctness by a key after an element with a new key is added at the end.
distinct-snoc :
    {K : Type 0} (k : Item → K) (items : List Item) (i : Item)
    → ((x y : Item) → In x items → In y items → k x ≡ k y → x ≡ y)
    → ((x : Item) → In x items → ¬ (k x ≡ k i))
    → (x y : Item) → In x (items ++ i ∷ [])
    → In y (items ++ i ∷ [])
    → k x ≡ k y
    → x ≡ y
distinct-snoc k items i u new x y x_at y_at e = elim (In-snoc items x_at) [
  | inl x_old ↦ elim (In-snoc items y_at) [
    | inl y_old ↦ u x y x_old y_old e
    | inr y_is ↦ absurd (new x x_old (e ∙ ap k y_is))
  ]
  | inr x_is ↦ elim (In-snoc items y_at) [
    | inl y_old ↦ absurd (new y y_old (sym e ∙ ap k x_is))
    | inr y_is ↦ x_is ∙ sym y_is
  ]
]

module _ (prisma : Prisma) (s : Setting) where
  -- Without the count, a new item comes after all others.
  pub next_order-last :
      (items : List Item)
      → s.counted ≡ false
      → (x : Item) → In x items
      → suc x.order ≤ next_order prisma s items
  unfolding next_order
  next_order-last items u x x_at = elim (Option-cases (prisma.last_by (λ i. i.order) items)) [
    | inl n ↦ absurd (not-In-nil (subst (In x) (prisma.none_last (λ i. i.order) items n) x_at))
    | inr (l, h) ↦
        let below : x.order ≤ l.order =
          All-In (λ y. y.order ≤ l.order) items (prisma.last_is_last (λ i. i.order) items h).1
            x_at in
        rw (u, h) (omega (arith, below))
  ]

  WellFormed-added :
      (db : Db) (i : Item)
      → All (λ x. has_id i.id x ≡ false) db.items
      → i.order ≡ next_order prisma s db.items
      → WellFormed s db
      → WellFormed s (record db { items = db.items ++ i ∷ [] })
  WellFormed-added db i fresh last w = record {
    unique_ids =
        distinct-snoc (λ z. z.id) db.items i w.unique_ids
          (λ x x_at e. cc (
            eq_self i.id,
            ap (λ z. str_eq z i.id) e,
            All-In (λ z. has_id i.id z ≡ false) db.items fresh x_at,
          ));
    unique_orders = λ u.
        distinct-snoc (λ z. z.order) db.items i (w.unique_orders u)
          (λ x x_at e. absurd (omega (arith, next_order-last db.items u x x_at, last, e)));
    properties_refer = λ p at. Refers-mono s.columns _ _ grows p (w.properties_refer p at);
    portfolios_refer =
        λ p at. Refers-mono s.portfolio_columns _ _ grows p (w.portfolios_refer p at);
  }
    where
      grows : (id : String) → Exists id db.items → Exists id (db.items ++ i ∷ [])
      grows id (x, x_at, is) = (x, (In-append db.items _).1 (inl x_at), is)

  Exists-filter :
      (id : String) (items : List Item) (x : String)
      → x ≢ id
      → Exists x items
      → Exists x (filter (λ i. not (has_id id i)) items)
  Exists-filter id items x apart (i, i_at, is) =
      (i, filter-In _ items i_at (rw (eq-false_of_ne i.id id (λ e. apart (sym is ∙ e))) refl), is)

  -- The rows with their references moved from one item to another refer to the items that are left.
  Refers-repoint :
      (id replacement : String) (columns : List String) (items : List Item) (rows : List Referrer)
      → id ≢ replacement
      → Exists replacement items
      → ((p : Referrer) → In p rows → Refers columns items p)
      → (p : Referrer) → In p (repoint prisma id replacement columns rows)
      → Refers columns (filter (λ i. not (has_id id i)) items) p
  Refers-repoint id replacement columns items rows apart there_is old p p_at c c_at x e =
      let (q, q_at, p_is) =
        In-map (redirected id replacement columns) rows
          (subst (In p) (repoint-eq-map id replacement prisma columns rows) p_at) in
      let e' : (redirected id replacement columns q).ref c ≡ some x =
        ap (λ z. z.ref c) (sym p_is) ∙ e in
      let x_apart : x ≢ id =
        λ x_is. redirected-clears id replacement columns apart q c c_at (e' ∙ ap some x_is) in
      elim (ref-redirected id replacement columns q c e') [
        | inl new ↦
            Exists-filter id items x x_apart (subst (λ z. Exists z items) (sym new) there_is)
        | inr kept ↦ Exists-filter id items x x_apart (old q q_at c c_at x kept)
      ]

  WellFormed-replaced :
      (db : Db) (id replacement : String)
      → id ≢ replacement
      → Exists replacement db.items
      → WellFormed s db
      → WellFormed s (record db {
        properties = repoint prisma id replacement s.columns db.properties;
        portfolios = repoint prisma id replacement s.portfolio_columns db.portfolios;
        items = filter (λ x. not (has_id id x)) db.items;
      })
  WellFormed-replaced db id replacement apart there_is w = record {
    unique_ids = λ x y x_at y_at e.
        w.unique_ids x y (In-filter _ db.items x_at).0 (In-filter _ db.items y_at).0 e;
    unique_orders = λ u x y x_at y_at e.
        w.unique_orders u x y (In-filter _ db.items x_at).0 (In-filter _ db.items y_at).0 e;
    properties_refer =
        Refers-repoint id replacement s.columns db.items db.properties apart there_is
          w.properties_refer;
    portfolios_refer =
        Refers-repoint id replacement s.portfolio_columns db.items db.portfolios apart there_is
          w.portfolios_refer;
  }

  module _ (compare : String → String → Bool) where
    WellFormed-changed :
        (db db' : Db) → Changed prisma compare s db db' → WellFormed s db → WellFormed s db'
    WellFormed-changed db db' (Changed.unchanged) w = w
    WellFormed-changed db db' (Changed.added i fresh last) w = WellFormed-added db i fresh last w
    WellFormed-changed db db' (Changed.changed id f keeps) w =
        WellFormed-items s db (λ x. if has_id id x then f x else x) (λ x. (if_keeps x).0)
          (λ orders x y x_at y_at e. orders x y x_at y_at (sym (if_keeps x).1 ∙ e ∙ (if_keeps y).1))
          w
      where
        if_keeps : KeepsPlace (λ x. if has_id id x then f x else x)
        if_keeps x = elim (Bool-cases (has_id id x)) [
          | inl hit ↦ rw hit (keeps x)
          | inr miss ↦ rw miss (refl, refl)
        ]
    WellFormed-changed db db' (Changed.moved i new i_at) w =
        WellFormed-moved prisma s db i new i_at w
    WellFormed-changed db db' (Changed.replaced id replacement apart r r_at is) w =
        WellFormed-replaced db id replacement apart (r, r_at, is) w

    run-WellFormed :
        (c : Call) (db : Db)
        → Fresh c db
        → WellFormed s db
        → WellFormed s (run prisma compare s c db)
    run-WellFormed c db fresh w =
        WellFormed-changed db _ (run-Changed prisma compare s c db fresh) w

-- Let the ids of the items be distinct, their orders too unless it is one of the two services that count new orders, and let
-- the columns of properties and portfolios that the service names refer to items that exist; then this
-- is so after every request (create, update, toggle, reorder to any number, remove), whether it
-- succeeds or throws, if the id that the database gives a new item is new.
pub run_service-WellFormed :
    (prisma : Prisma) (compare : String → String → Bool) (k : Kind) (c : Call) (db : Db)
    → Fresh c db
    → WellFormed (setting k) db
    → WellFormed (setting k) (run_service prisma compare k c db)
unfolding run_service run_priority run_billing_type run_frequency run_processor run_service_type
    run_currency
run_service-WellFormed prisma compare of_priority c db = run-WellFormed prisma priority compare c db
run_service-WellFormed prisma compare of_billing_type c db =
    run-WellFormed prisma billing_type compare c db
run_service-WellFormed prisma compare of_frequency c db =
    run-WellFormed prisma frequency compare c db
run_service-WellFormed prisma compare of_processor c db =
    run-WellFormed prisma processor compare c db
run_service-WellFormed prisma compare of_service_type (Call.toggles id) db = λ fresh w. w
run_service-WellFormed prisma compare of_service_type c db =
    run-WellFormed prisma service_type compare c db
run_service-WellFormed prisma compare of_currency (Call.toggles id) db = λ fresh w. w
run_service-WellFormed prisma compare of_currency c db = run-WellFormed prisma currency compare c db
