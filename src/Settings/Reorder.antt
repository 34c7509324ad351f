-- ===== src/Settings/Reorder.antt =====
-- `reorder` moves an item within the list of the items by their orders.
use vnp_dbms_backend.Common.{
  ℕ, ◌≡◌, refl, sym, ap, subst, ◌∙◌, inl, inr, true, false, Option, none, some, List, [], ◌∷◌, map,
  All, In, here, there, In-cases, Bool-cases, Option-cases, eq_iff, eq_self, str_eq, if◌then◌else◌,
  ok,
}
use vnp_dbms_backend.Common.Prisma.{Prisma}
use vnp_dbms_backend.Settings.Service.{Item, Db, Update, has_id, updates_for, update_many}

-- A row with the order of each update for its id in turn.
unfoldable pub reordered : List Update → Item → Item
reordered [] i = i
reordered (u ∷ us) i = reordered us (if has_id u.id i then record i { order = u.order } else i)

pub map-map :
    {A B C : Type 0} (f : B → C) (g : A → B) (xs : List A)
    → map f (map g xs) ≡ map (λ x. f (g x)) xs
map-map f g [] = refl
map-map f g (x ∷ xs) = ap (λ l. f (g x) ∷ l) (map-map f g xs)

pub map_self : {A : Type 0} (xs : List A) → map (λ x. x) xs ≡ xs
map_self [] = refl
map_self (x ∷ xs) = ap (λ l. x ∷ l) (map_self xs)

-- Updates for the id of a row that agree on the order
abbrev Agree : Item → ℕ → Update → Type 0
Agree i o u = str_eq i.id u.id ≡ true → u.order ≡ o

reordered-same :
    (us : List Update) (i : Item) (o : ℕ)
    → All (Agree i o) us
    → reordered us (record i { order = o }) ≡ record i { order = o }
unfolding reordered
reordered-same [] i o a = refl
reordered-same (u ∷ us) i o a = elim (Bool-cases (str_eq i.id u.id)) [
  | inl hit ↦ rw (hit, a.0 hit) (reordered-same us i o a.1)
  | inr miss ↦ rw miss (reordered-same us i o a.1)
]

reordered-hit :
    (us : List Update) (i : Item) (o : ℕ)
    → All (Agree i o) us
    → In (record { id = i.id; order = o }) us
    → reordered us i ≡ record i { order = o }
unfolding reordered
reordered-hit [] i o a at = elim at [ ]
reordered-hit (u ∷ us) i o a at = elim (Bool-cases (str_eq i.id u.id)) [
  | inl hit ↦ rw (hit, a.0 hit) (reordered-same us i o a.1)
  | inr miss ↦ elim (In-cases at) [
    | inl e ↦ cc (miss, eq_self i.id, ap (λ v. str_eq i.id v.id) e)
    | inr later ↦ rw miss (reordered-hit us i o a.1 later)
  ]
]

reordered-miss :
    (us : List Update) (i : Item) → All (λ u. str_eq i.id u.id ≡ false) us → reordered us i ≡ i
unfolding reordered
reordered-miss [] i a = refl
reordered-miss (u ∷ us) i a = rw a.0 (reordered-miss us i a.1)

module _ (prisma : Prisma) where
  pub items-update_many :
      (us : List Update) (db : Db)
      → update_many prisma us db ≡ (ok tt, record db { items = map (reordered us) db.items })
  unfolding update_many reordered
  items-update_many [] db = rw (map_self db.items) refl
  items-update_many (u ∷ us) db =
      rw
        (
          items-update_many us _,
          prisma.rows_update (has_id u.id) (λ i. record i { order = u.order }) db.items,
          map-map (reordered us) (λ i. if has_id u.id i then record i { order = u.order } else i)
              db.items,
        )
        refl

-- A row with the order that is computed for it, if any.
abbrev pub placed : (Item → Option ℕ) → Item → Item
placed f i = elim (f i) [ none ↦ i | some o ↦ record i { order = o } ]

In-updates_for :
    (f : Item → Option ℕ) (xs : List Item) {i : Item} {o : ℕ}
    → In i xs
    → f i ≡ some o
    → In (record { id = i.id; order = o }) (updates_for f xs)
unfolding updates_for
In-updates_for f [] at e = elim at [ ]
In-updates_for f (x ∷ xs) {i} {o} at e = elim (In-cases at) [
  | inl is ↦
      rw (sym (ap f is) ∙ e, updates_for)
        (subst
          (λ z.
            In (record { id = i.id; order = o }) (record { id = z; order = o } ∷ updates_for f xs))
          (ap (λ z. z.id) is) here)
  | inr later ↦ elim (Option-cases (f x)) [
    | inl n ↦ rw (n, updates_for) (In-updates_for f xs later e)
    | inr (n, h) ↦ rw (h, updates_for) (there (In-updates_for f xs later e))
  ]
]

-- What holds of a row and its new order holds of the updates.
All-updates_for :
    (f : Item → Option ℕ) (P : Update → Type 0) (xs : List Item)
    → ((x : Item) (o : ℕ) → In x xs → f x ≡ some o → P (record { id = x.id; order = o }))
    → All P (updates_for f xs)
unfolding updates_for
All-updates_for f P [] h = tt
All-updates_for f P (x ∷ xs) h = elim (Option-cases (f x)) [
  | inl n ↦ rw (n, updates_for) (All-updates_for f P xs (λ y o at e. h y o (there at) e))
  | inr (o, e) ↦
      rw (e, updates_for) (h x o here e, All-updates_for f P xs (λ y p at e. h y p (there at) e))
]

abbrev pub UniqueIds : List Item → Type 0
UniqueIds items = (x y : Item) → In x items → In y items → x.id ≡ y.id → x ≡ y

pub reordered-updates_for :
    (f : Item → Option ℕ) (xs : List Item)
    → UniqueIds xs
    → {i : Item} → In i xs
    → reordered (updates_for f xs) i ≡ placed f i
reordered-updates_for f xs u {i} at = elim (Option-cases (f i)) [
  | inl n ↦
      rw (n, placed)
        (reordered-miss _ i (
          All-updates_for f _ xs (λ x o x_at e. elim (Bool-cases (str_eq i.id x.id)) [
            | inl same ↦ absurd (cc (n, e, u i x at x_at ((eq_iff i.id x.id).0 same)))
            | inr other ↦ other
          ])))
  | inr (o, h) ↦
      rw (h, placed)
        (reordered-hit _ i o
          (All-updates_for f _ xs
            (λ x p x_at e same. cc (h, e, u i x at x_at ((eq_iff i.id x.id).0 same))))
          (In-updates_for f xs at h))
]
