-- ===== src/Settings/WellFormed.antt =====
-- What every request to the six services keeps: distinct ids, distinct orders, and references to items that exist.
use vnp_dbms_backend.Common.{
  ℕ, String, ◌≡◌, refl, sym, ap, ◌∙◌, inl, inr, false, Option, some, List, map, arith, In, In-map,
  map-In, Bool-cases, eq_iff, eq_self, str_eq, eqb,
}
use vnp_dbms_backend.Common.Prisma.{Prisma}
use vnp_dbms_backend.Settings.Service.{Item, Referrer, Db, Setting, new_order, updates_for}
use vnp_dbms_backend.Settings.Positions.{shift, shift-shift}
use vnp_dbms_backend.Settings.Reorder.{placed, UniqueIds, reordered}
use vnp_dbms_backend.Settings.Ranks.{id-placed, items-moved, UniqueIds-map}

abbrev pub UniqueOrders : List Item → Type 0
UniqueOrders items = (x y : Item) → In x items → In y items → x.order ≡ y.order → x ≡ y

abbrev pub Exists : String → List Item → Type 0
Exists id items = (i : Item) × In i items × (i.id ≡ id)

-- Each of the columns refers to an item, or to none.
abbrev pub Refers : List String → List Item → Referrer → Type 0
Refers columns items p =
    (c : String) → In c columns → (id : String) → p.ref c ≡ some id → Exists id items

pub record WellFormed (s : Setting) (db : Db) : Type 0 where
  pub unique_ids : UniqueIds db.items
  pub unique_orders : s.counted ≡ false → UniqueOrders db.items
  pub properties_refer : (p : Referrer) → In p db.properties → Refers s.columns db.items p
  pub portfolios_refer : (p : Referrer) → In p db.portfolios → Refers s.portfolio_columns db.items p

pub Refers-mono :
    (columns : List String) (xs ys : List Item)
    → ((id : String) → Exists id xs → Exists id ys)
    → (p : Referrer) → Refers columns xs p
    → Refers columns ys p
Refers-mono columns xs ys h p r c c_at id e = h id (r c c_at id e)

Exists-map :
    (f : Item → Item) (items : List Item)
    → ((x : Item) → (f x).id ≡ x.id)
    → (id : String) → Exists id items
    → Exists id (map f items)
Exists-map f items keeps id (i, i_at, is) = (f i, map-In f items i_at, keeps i ∙ is)

-- A change of the items that keeps ids, and the orders apart
pub WellFormed-items :
    (s : Setting) (db : Db) (f : Item → Item)
    → ((x : Item) → (f x).id ≡ x.id)
    → (UniqueOrders db.items
        → (x y : Item) → In x db.items
        → In y db.items
        → (f x).order ≡ (f y).order
        → x ≡ y)
    → WellFormed s db
    → WellFormed s (record db { items = map f db.items })
WellFormed-items s db f keeps apart w = record {
  unique_ids = UniqueIds-map f db.items keeps w.unique_ids;
  unique_orders = λ u x y x_at y_at e.
      let (x', x'_at, xe) = In-map f db.items x_at in
      let (y', y'_at, ye) = In-map f db.items y_at in
      xe
      ∙ ap f (
          apart (w.unique_orders u) x' y' x'_at y'_at
            (sym (ap (λ z. z.order) xe) ∙ e ∙ ap (λ z. z.order) ye))
      ∙ sym ye;
  properties_refer =
      λ p at. Refers-mono s.columns _ _ (Exists-map f db.items keeps) p (w.properties_refer p at);
  portfolios_refer = λ p at.
      Refers-mono s.portfolio_columns _ _ (Exists-map f db.items keeps) p (w.portfolios_refer p at);
}

-- The new order of an item is where the move shifts its old order.
order-shifted :
    (id : String) (current new : ℕ) (x : Item)
    → str_eq x.id id ≡ eqb x.order current
    → (placed (new_order id current new) x).order ≡ shift current new x.order
unfolding new_order shift
order-shifted id current new x same = ground (arith, same)

same-order :
    (items : List Item)
    → UniqueIds items
    → UniqueOrders items
    → (x i : Item) → In x items
    → In i items
    → str_eq x.id i.id ≡ eqb x.order i.order
same-order items ids orders x i x_at i_at = elim (Bool-cases (str_eq x.id i.id)) [
  | inl same ↦
      let x_is : x ≡ i = ids x i x_at i_at ((eq_iff x.id i.id).0 same) in
      rw (same, x_is) (ground arith)
  | inr other ↦ elim (Bool-cases (eqb x.order i.order)) [
    | inl at ↦ absurd (cc (other, eq_self i.id, orders x i x_at i_at (ground arith)))
    | inr apart ↦ rw (other, apart) refl
  ]
]

shift-injective : (from to p q : ℕ) → shift from to p ≡ shift from to q → p ≡ q
shift-injective from to p q e =
    sym (shift-shift to from p) ∙ ap (shift to from) e ∙ shift-shift to from q

pub WellFormed-moved :
    (prisma : Prisma) (s : Setting) (db : Db) (i : Item) (new : ℕ)
    → In i db.items
    → WellFormed s db
    → WellFormed s (record db {
      items =
          map
            (reordered (
              updates_for (new_order i.id i.order new) (prisma.ordered_by (λ x. x.order) db.items)))
            db.items;
    })
WellFormed-moved prisma s db i new i_at w =
    rw (items-moved prisma (new_order i.id i.order new) db w.unique_ids) (
      WellFormed-items s db (placed f) (id-placed f)
        (λ orders x y x_at y_at e.
          let at = same-order db.items w.unique_ids orders in
          orders x y x_at y_at (
            shift-injective i.order new x.order y.order (
              sym (order-shifted i.id i.order new x (at x i x_at i_at))
              ∙ e
              ∙ order-shifted i.id i.order new y (at y i y_at i_at))))
        w)
  where
    f : Item → Option ℕ
    f = new_order i.id i.order new
