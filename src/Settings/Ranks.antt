-- ===== src/Settings/Ranks.antt =====
-- `reorder` implements the move of an id within the list of the ids in their order.
use vnp_dbms_backend.Common.{
  ℕ, suc, ◌<◌, String, ◌≡◌, refl, sym, ap, subst, ◌∙◌, ◌↔◌, inl, inr, false, Option, some, List, [],
  ◌∷◌, map, arith, length, In, All-In, here, there, In-map, map-In, Bool-cases, Option-cases,
  eq_iff, eq_self, str_eq, eqb, ok,
}
use vnp_dbms_backend.Common.Prisma.{Prisma}
use vnp_dbms_backend.Settings.Service.{
  Item, Db, Setting, has_id, new_order, updates_for, find_by_id, find_all, reorder,
}
use vnp_dbms_backend.Settings.Positions.{
  nth, move_to, shift, shift-shift, nth-move_to, move_to_same, nth-some_lt,
}
use vnp_dbms_backend.Settings.Reorder.{
  placed, UniqueIds, reordered, reordered-updates_for, items-update_many,
}

-- The items are those of the list of ids, each with its position there, counted from 1, as its order.
pub record Ranks (ids : List String) (items : List Item) : Type 0 where
  pub unique_ids : UniqueIds items
  pub ranked : (x : Item) → In x items → (p : ℕ) × (x.order ≡ suc p) × (nth ids p ≡ some x.id)
  pub complete :
      (p : ℕ) (id : String)
      → nth ids p ≡ some id
      → (x : Item) × In x items × (x.id ≡ id) × (x.order ≡ suc p)

pub id-placed : (f : Item → Option ℕ) (x : Item) → (placed f x).id ≡ x.id
id-placed f x = elim (Option-cases (f x)) [
  | inl n ↦ rw (n, placed) refl
  | inr (o, e) ↦ rw (e, placed) refl
]

pub UniqueIds-map :
    (f : Item → Item) (items : List Item)
    → ((x : Item) → (f x).id ≡ x.id)
    → UniqueIds items
    → UniqueIds (map f items)
UniqueIds-map f items keeps u x y x_at y_at e =
    let (x', x'_at, xe) = In-map f items x_at in
    let (y', y'_at, ye) = In-map f items y_at in
    xe
    ∙ ap f (
        u x' y' x'_at y'_at
          (sym (keeps x') ∙ sym (ap (λ z. z.id) xe) ∙ e ∙ ap (λ z. z.id) ye ∙ keeps y'))
    ∙ sym ye

-- The new order of an item is the position that the move gives it.
order-placed :
    (id : String) (from to p : ℕ) (x : Item)
    → x.order ≡ suc p
    → str_eq x.id id ≡ eqb p from
    → (placed (new_order id (suc from) (suc to)) x).order ≡ suc (shift from to p)
unfolding new_order shift
order-placed id from to p x e same = ground (arith, e, same)

nth-rank :
    (ids : List String) (items : List Item)
    → Ranks ids items
    → (x : Item) → In x items
    → (p : ℕ) → x.order ≡ suc p
    → nth ids p ≡ some x.id
nth-rank ids items r x x_at p h =
    let (q, e, n) = r.ranked x x_at in subst (λ k. nth ids k ≡ some x.id) (omega (arith, e, h)) n

module _ (ids : List String) (items : List Item) (r : Ranks ids items) (i : Item)
    (i_at : In i items) (from to : ℕ) (e : i.order ≡ suc from) where
  same-rank : (x : Item) → In x items → (p : ℕ) → x.order ≡ suc p → str_eq x.id i.id ≡ eqb p from
  same-rank x x_at p h = elim (Bool-cases (str_eq x.id i.id)) [
    | inl same ↦
        let x_is : x ≡ i = r.unique_ids x i x_at i_at ((eq_iff x.id i.id).0 same) in
        let p_is : p ≡ from = omega (arith, ap (λ z. z.order) x_is, h, e) in
        rw (same, p_is) (ground arith)
    | inr other ↦ elim (Bool-cases (eqb p from)) [
      | inl at ↦
          let p_is : p ≡ from = ground arith in
          absurd (
            cc (
              other,
              eq_self i.id,
              nth-rank ids items r x x_at p h,
              nth-rank ids items r i i_at from e,
              p_is,
            ))
      | inr apart ↦ rw (other, apart) refl
    ]
  ]

  abbrev moved : Item → Item
  moved = placed (new_order i.id (suc from) (suc to))

  moved-order :
      (x : Item) → In x items → (p : ℕ) → x.order ≡ suc p → (moved x).order ≡ suc (shift from to p)
  moved-order x x_at p h = order-placed i.id from to p x h (same-rank x x_at p h)

  Ranks-moved : from < length ids → to < length ids → Ranks (move_to from to ids) (map moved items)
  Ranks-moved hf ht = record {
    unique_ids =
        UniqueIds-map moved items (id-placed (new_order i.id (suc from) (suc to))) r.unique_ids;
    ranked = λ y y_at.
        let (x, x_at, y_is) = In-map moved items y_at in
        let (p, h, n) = r.ranked x x_at in
        (
          shift from to p,
          ap (λ z. z.order) y_is ∙ moved-order x x_at p h,
          nth-move_to from to p ids hf ht
              ∙ n
              ∙ ap some (
                  sym (id-placed (new_order i.id (suc from) (suc to)) x)
                  ∙ sym (ap (λ z. z.id) y_is)),
        );
    complete = λ p id n.
        let back = shift to from p in
        let there_it_was : nth ids back ≡ some id =
          sym (nth-move_to from to back ids hf ht)
          ∙ ap (nth (move_to from to ids)) (shift-shift from to p)
          ∙ n in
        let (x, x_at, is, h) = r.complete back id there_it_was in
        (
          moved x,
          map-In moved items x_at,
          id-placed (new_order i.id (suc from) (suc to)) x ∙ is,
          moved-order x x_at back h ∙ ap suc (shift-shift from to p),
        );
  }

map-same :
    (f g : Item → Item) (items : List Item)
    → ((x : Item) → In x items → f x ≡ g x)
    → map f items ≡ map g items
map-same f g [] h = refl
map-same f g (x ∷ xs) h = rw (h x here, map-same f g xs (λ y at. h y (there at))) refl

-- What is written is the new order of each item.
pub items-moved :
    (prisma : Prisma) (f : Item → Option ℕ) (db : Db)
    → UniqueIds db.items
    → map (reordered (updates_for f (prisma.ordered_by (λ i. i.order) db.items))) db.items
      ≡ map (placed f) db.items
items-moved prisma f db u = map-same _ _ db.items (λ x at.
    reordered-updates_for f _ (λ y z y_at z_at. u y z ((ordered y).0 y_at) ((ordered z).0 z_at))
      ((ordered x).1 at))
  where
    ordered : (x : Item) → In x (prisma.ordered_by (λ i. i.order) db.items) ↔ In x db.items
    ordered = prisma.ordered_iff (λ i. i.order) db.items

module _ (prisma : Prisma) (s : Setting) where
  found_self :
      (db : Db) {i : Item}
      → UniqueIds db.items
      → In i db.items
      → prisma.find_first (has_id i.id) db.items ≡ some i
  found_self db {i} u i_at = elim (Option-cases (prisma.find_first (has_id i.id) db.items)) [
    | inl n ↦ absurd (
        cc (
          eq_self i.id,
          All-In (λ x. has_id i.id x ≡ false) db.items (prisma.none_found (has_id i.id) db.items n)
              i_at,
        ))
    | inr (x, h) ↦
        let (x_at, same) = prisma.found_in (has_id i.id) db.items h in
        h ∙ ap some (u x i x_at i_at ((eq_iff x.id i.id).0 same))
  ]

  -- The items are listed by a list of ids, in the order of the numbers 1, 2, …; then `reorder` of
  -- one of the items to a number up to their count succeeds, and afterwards the items are listed in
  -- the same way by the list in which the id of that item has moved to the new position.
  pub reorder-refines-move_to :
      (ids : List String) (db : Db) (i : Item) (from to : ℕ)
      → Ranks ids db.items
      → In i db.items
      → i.order ≡ suc from
      → to < length ids
      → (message : String) × ((reorder prisma s i.id (suc to) db).0 ≡ ok message)
        × Ranks (move_to from to ids) (reorder prisma s i.id (suc to) db).1.items
  unfolding reorder find_by_id find_all
  reorder-refines-move_to ids db i from to r i_at e fits =
      elim (Bool-cases (eqb i.order (suc to))) [
        | inl same ↦
            rw (found_self db r.unique_ids i_at, same)
              (
                _,
                refl,
                subst (λ l. Ranks l db.items)
                    (sym (move_to_same from ids) ∙ ap (λ k. move_to from k ids) (ground arith)) r,
              )
        | inr other ↦
            rw
              (
                found_self db r.unique_ids i_at,
                other,
                items-update_many prisma
                    (updates_for (new_order i.id i.order (suc to))
                      (prisma.ordered_by (λ x. x.order) db.items))
                    db,
                items-moved prisma (new_order i.id i.order (suc to)) db r.unique_ids,
                e,
              )
              (
                _,
                refl,
                Ranks-moved ids db.items r i i_at from to e
                    (nth-some_lt from ids (nth-rank ids db.items r i i_at from e)) fits,
              )
      ]
