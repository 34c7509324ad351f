-- ===== src/Settings/Service.antt =====
-- The service and the repository that six modules have in common, over what differs between them:
-- src/modules/priority, billing-type, frequency, processor, service-type and currency. Orders are
-- natural numbers. The number of properties that `findAll` counts for each item is left out.
use Prim.Native.String.{◌++◌ as append}
use vnp_dbms_backend.Common.{
  ℕ, ◌+◌, ◌-◌, String, Bool, false, not, ◌&&◌, Option, none, some, List, [], ◌∷◌, str_eq, eqb, ltb,
  leb, length, filter, is_empty, is_some, if◌then◌else◌, get_or, Exec, pure, raise, gets, modify,
  ◌>>=◌, ◌>>◌, when, or_raise, bad_request, not_found, conflict,
}
use vnp_dbms_backend.Common.Prisma.{Prisma}

-- `Priority`, `BillingType`, `Frequency`, `Processor`, `ServiceType` and `Currency`; the name of a service type is its
-- `type`, that of a currency its `code`.
pub record Item : Type 0 where
  pub id : String
  pub name : String
  pub is_active : Bool
  pub order : ℕ

-- A property or a portfolio, by the ids in its columns that refer to items.
pub record Referrer : Type 0 where
  pub id : String
  pub ref : String → Option String

pub record Account : Type 0 where
  pub id : String
  pub password : String

pub record Db : Type 0 where
  pub items : List Item
  pub properties : List Referrer
  pub portfolios : List Referrer
  pub users : List Account

-- What differs between the six: the noun and the word for the name in messages, the columns of a property that refer to
-- an item, whether a portfolio does, and whether a new item's order is the number of items plus one
-- or the last order plus one.
pub record Setting : Type 0 where
  pub noun : String
  pub lower_noun : String
  pub key : String
  pub columns : List String
  pub portfolio_columns : List String
  pub counted : Bool

abbrev pub has_id : String → Item → Bool
has_id id i = str_eq i.id id

abbrev pub has_name : String → Item → Bool
has_name name i = str_eq i.name name

-- `where: { [column]: id }`, and the write of another id into that column
abbrev pub refers : String → String → Referrer → Bool
refers column id p = elim (p.ref column) [ none ↦ false | some x ↦ str_eq x id ]

abbrev pub repointed : String → String → Referrer → Referrer
repointed column replacement p = record p {
  ref = λ c. if str_eq c column then some replacement else p.ref c;
}

-- The update that `reorder` makes for an item, if any: the moved item takes its new order, and those between its old and
-- its new order make room.
unfoldable pub new_order : String → (current new : ℕ) → Item → Option ℕ
new_order id current new i =
    if str_eq i.id id
    then some new
    else if ltb current new
    then (if ltb current i.order && leb i.order new then some (i.order - 1) else none)
    else (if leb new i.order && ltb i.order current then some (i.order + 1) else none)

pub record Update : Type 0 where
  pub id : String
  pub order : ℕ

-- `updates.push` for the items in turn
unfoldable pub updates_for : (Item → Option ℕ) → List Item → List Update
updates_for f [] = []
updates_for f (i ∷ is) = elim (f i) [
  | none ↦ updates_for f is
  | some o ↦ record { id = i.id; order = o } ∷ updates_for f is
]

-- `{ name, is_active }`, each given or not
pub record UpdateDto : Type 0 where
  pub name : Option String
  pub is_active : Option Bool

abbrev pub written : UpdateDto → Item → Item
written d i = record i { name = get_or d.name i.name; is_active = get_or d.is_active i.is_active }

-- `data.name && data.name !== item.name`
abbrev pub renames : Option String → Item → Bool
renames none i = false
renames (some n) i = not (is_empty n) && not (str_eq n i.name)

abbrev pub exists_already : Setting → String
exists_already s = append s.noun (append " with this " (append s.key " already exists"))

abbrev pub missing : Setting → String
missing s = append s.noun " not found"

module _ (prisma : Prisma) where
  -- The order that `create` of the repository gives a new item.
  unfoldable pub next_order : Setting → List Item → ℕ
  next_order s rows =
      if s.counted
      then length rows + 1
      else elim (prisma.last_by (λ i. i.order) rows) [ none ↦ 1 | some i ↦ i.order + 1 ]

  unfoldable pub find_by_id : String → Exec Db (Option Item)
  find_by_id id = gets (λ db. prisma.find_first (has_id id) db.items)

  unfoldable pub find_by_name : String → Exec Db (Option Item)
  find_by_name name = gets (λ db. prisma.find_first (has_name name) db.items)

  unfoldable pub find_all : Exec Db (List Item)
  find_all = gets (λ db. prisma.ordered_by (λ i. i.order) db.items)

  -- The item is one that was just found.
  unfoldable pub write : String → (Item → Item) → Item → Exec Db Item
  write id f i = do
    modify (λ db. record db { items = prisma.update (has_id id) f db.items })
    pure (f i)

  -- `updateMany`: one update after the other, in a transaction
  unfoldable pub update_many : List Update → Exec Db Unit
  update_many [] = pure tt
  update_many (u ∷ us) = do
    modify (λ db. record db {
      items = prisma.update (has_id u.id) (λ i. record i { order = u.order }) db.items;
    })
    update_many us

  -- `property.updateMany` for each column in turn, and `portfolio.updateMany`
  unfoldable pub repoint : (id replacement : String) → List String → List Referrer → List Referrer
  repoint id replacement [] rows = rows
  repoint id replacement (c ∷ cs) rows =
      repoint id replacement cs (prisma.update (refers c id) (repointed c replacement) rows)

  module _ (s : Setting) where
    -- `id` is the id of the new item.
    unfoldable pub create : (id name : String) (is_active : Bool) → Exec Db Item
    create id name is_active = do
      existing ← find_by_name name
      when (is_some existing) (raise conflict (exists_already s))
      order ← gets (λ db. next_order s db.items)
      modify (λ db. record db {
        items =
            prisma.create (record { id = id; name = name; is_active = is_active; order = order })
              db.items;
      })
      pure (record { id = id; name = name; is_active = is_active; order = order })

    unfoldable pub find_one : String → Exec Db Item
    find_one id = do found ← find_by_id id; or_raise found not_found (missing s)

    unfoldable pub find_all_except : String → Exec Db (List Item)
    find_all_except id = do
      found ← find_by_id id
      i ← or_raise found not_found (missing s)
      gets (λ db. prisma.ordered_by (λ i. i.order) (filter (λ i. not (has_id id i)) db.items))

    -- The check for another item with the new name.
    abbrev check_name : Option String → Item → Exec Db (Unit {0})
    check_name none i = pure tt
    check_name (some n) i = do
      duplicate ← find_by_name n
      when (renames (some n) i && is_some duplicate) (raise conflict (exists_already s))

    unfoldable pub update : String → UpdateDto → Exec Db Item
    update id d = do
      found ← find_by_id id
      i ← or_raise found not_found (missing s)
      check_name d.name i
      write id (written d) i

    unfoldable pub toggle : String → Exec Db Item
    toggle id = do
      found ← find_by_id id
      i ← or_raise found not_found (missing s)
      write id (λ x. record x { is_active = not i.is_active }) i

    abbrev move : String → (current new : ℕ) → Exec Db String
    move id current new = do
      all ← find_all
      update_many (updates_for (new_order id current new) all)
      pure (append s.noun " order updated successfully")

    unfoldable pub reorder : String → (new : ℕ) → Exec Db String
    reorder id new = do
      found ← find_by_id id
      i ← or_raise found not_found (missing s)
      if eqb i.order new then pure (append s.noun " order unchanged") else move id i.order new

    -- `compare` is bcrypt's.
    unfoldable pub remove :
        (String → String → Bool) → (id password replacement_id user_id : String) → Exec Db String
    remove compare id password replacement_id user_id = do
      account ← gets (λ db. prisma.find_first (λ u. str_eq u.id user_id) db.users)
      u ← or_raise account not_found "User not found"
      when (not (compare password u.password)) (raise bad_request "Invalid password")
      when (str_eq id replacement_id) (
          raise bad_request (
            append "Replacement "
              (append s.lower_noun " must be different from the one being deleted")))
      found ← find_by_id id
      i ← or_raise found not_found (missing s)
      other ← find_by_id replacement_id
      r ← or_raise other not_found (append "Replacement " (append s.lower_noun " not found"))
      modify (λ db. record db {
        properties = repoint id replacement_id s.columns db.properties;
        portfolios = repoint id replacement_id s.portfolio_columns db.portfolios;
        items = prisma.delete (has_id id) db.items;
      })
      pure (append s.noun " deleted successfully")

-- What a request to one of the services asks for.
pub data Call : Type 0 where
  creates : (id name : String) → (is_active : Bool) → Call
  updates : String → UpdateDto → Call
  toggles : String → Call
  reorders : String → ℕ → Call
  removes : (id password replacement_id user_id : String) → Call

module _ (prisma : Prisma) (compare : String → String → Bool) (s : Setting) where
  unfoldable pub run : Call → Db → Db
  run (creates id name is_active) db = (create prisma s id name is_active db).1
  run (updates id d) db = (update prisma s id d db).1
  run (toggles id) db = (toggle prisma s id db).1
  run (reorders id new) db = (reorder prisma s id new db).1
  run (removes id password replacement_id user_id) db =
      (remove prisma s compare id password replacement_id user_id db).1
