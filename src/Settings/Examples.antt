-- ===== src/Settings/Examples.antt =====
-- The six services on concrete tables.
use vnp_dbms_backend.Common.{
  ℕ, zero, suc, if◌then◌else◌, String, ◌≡◌, ◌≢◌, refl, sym, subst, ap₂, ◌∙◌, ◌⊎◌, inl, inr, true,
  none, some, [], ◌∷◌, arith, In, here, there, In-cases, not-In-nil, str_eq, Error, ok, err,
  ne_of_eq-false,
}
use vnp_dbms_backend.Common.Prisma.{scanning}
use vnp_dbms_backend.Settings.Service.{
  Item, Referrer, Account, Db, Call, reorder, create, remove, find_by_id, find_by_name, find_all,
  update_many, updates_for, new_order, next_order, repoint,
}
use vnp_dbms_backend.Settings.Services.{
  priority, currency, of_priority, of_currency, setting, run_service,
}
use vnp_dbms_backend.Settings.Positions.{move_to, nth}
use vnp_dbms_backend.Settings.Reorder.{UniqueIds}
use vnp_dbms_backend.Settings.Ranks.{Ranks, reorder-refines-move_to}
use vnp_dbms_backend.Settings.WellFormed.{WellFormed}
use vnp_dbms_backend.Settings.Remove.{Confirmed, Present}
use vnp_dbms_backend.Settings.Schema.{
  IsIntact, property_columns, portfolio_columns, after_remove, run_service-IsIntact,
  remove-hands_over,
}

abbrev high : Item
high = record { id = "h"; name = "High"; is_active = true; order = 1 }

abbrev low : Item
low = record { id = "l"; name = "Low"; is_active = true; order = 2 }

abbrev hotel : Referrer
hotel = record { id = "p"; ref = λ c. if str_eq c "priority_id" then some "h" else none }

abbrev ann : Account
ann = record { id = "u"; password = "secret" }

abbrev table : Db
table = record {
  items = high ∷ low ∷ [];
  properties = hotel ∷ [];
  portfolios = [];
  users = ann ∷ [];
}

two : (P : Item → Type 0) → P high → P low → (x : Item) → In x (high ∷ low ∷ []) → P x
two P a b x at = elim (In-cases at) [
  | inl e ↦ subst P (sym e) a
  | inr later ↦ elim (In-cases later) [
    | inl e ↦ subst P (sym e) b
    | inr gone ↦ absurd (not-In-nil gone)
  ]
]

UniqueIds-table : UniqueIds table.items
UniqueIds-table x y x_at y_at =
    two (λ z. z.id ≡ y.id → z ≡ y)
      (two (λ z. "h" ≡ z.id → high ≡ z) (λ e. refl) (λ e. absurd (ne_of_eq-false "h" "l" refl e)) y
        y_at)
      (two (λ z. "l" ≡ z.id → low ≡ z) (λ e. absurd (ne_of_eq-false "l" "h" refl e)) (λ e. refl) y
        y_at)
      x x_at

Ranks-table : Ranks ("h" ∷ "l" ∷ []) table.items
Ranks-table = record {
  unique_ids = UniqueIds-table;
  ranked = two _ (0, refl, refl) (1, refl, refl);
  complete = found;
}
  where
    found :
        (p : ℕ) (id : String)
        → nth ("h" ∷ "l" ∷ []) p ≡ some id
        → (x : Item) × In x table.items × (x.id ≡ id) × (x.order ≡ suc p)
    found zero id e = (high, here, ground arith, refl)
    found (suc zero) id e = (low, there here, ground arith, refl)
    found (suc (suc p)) id e = cc

reorder-refines-move_to_example :
    (message : String) × ((reorder scanning priority "h" 2 table).0 ≡ ok message)
    × Ranks (move_to 0 1 ("h" ∷ "l" ∷ [])) (reorder scanning priority "h" 2 table).1.items
reorder-refines-move_to_example =
    reorder-refines-move_to scanning priority ("h" ∷ "l" ∷ []) table high 0 1 Ranks-table here refl
      (omega arith)

WellFormed-table : WellFormed priority table
WellFormed-table = record {
  unique_ids = UniqueIds-table;
  unique_orders = λ u x y x_at y_at.
      two (λ z. z.order ≡ y.order → z ≡ y)
        (two (λ z. 1 ≡ z.order → high ≡ z) (λ e. refl) (λ e. absurd (omega (arith, e))) y y_at)
        (two (λ z. 2 ≡ z.order → low ≡ z) (λ e. absurd (omega (arith, e))) (λ e. refl) y y_at) x
        x_at;
  properties_refer = λ p p_at c c_at id e. elim (In-cases p_at) [
    | inr gone ↦ absurd (not-In-nil gone)
    | inl p_is ↦ elim (In-cases c_at) [
      | inr gone ↦ absurd (not-In-nil gone)
      | inl c_is ↦ (
        high,
        here,
        let holds : hotel.ref "priority_id" ≡ some id =
              ap₂ (λ q d. q.ref d) (sym p_is) (sym c_is) ∙ e in
            ground arith,
      )
    ]
  ];
  portfolios_refer = λ p p_at. absurd (not-In-nil p_at);
}

abbrev removal : Call
removal = Call.removes "h" "secret" "l" "u"

IsIntact-table : IsIntact of_priority table
unfolding property_columns portfolio_columns
IsIntact-table = record {
  ids = WellFormed-table.unique_ids;
  orders = λ u. WellFormed-table.unique_orders refl;
  properties = WellFormed-table.properties_refer;
  portfolios = WellFormed-table.portfolios_refer;
}

not_currency : of_priority ≢ of_currency
not_currency e = cc e

run_service-IsIntact_example :
    IsIntact of_priority (run_service scanning (λ a b. str_eq a b) of_priority removal table)
run_service-IsIntact_example =
    run_service-IsIntact scanning (λ a b. str_eq a b) of_priority removal table not_currency tt
      IsIntact-table

remove-hands_over_example :
    ((e : Error) × (remove scanning
          (setting of_priority)
          (λ a b. str_eq a b)
          "h"
          "secret"
          "l"
          "u"
          table
        ≡ (err e, table)))
    ⊎ (Confirmed (λ a b. str_eq a b) "u" "secret" table
        × (high.id ≢ low.id)
        × Present "h" table
        × Present "l" table
        × (message : String) × (remove scanning
              (setting of_priority)
              (λ a b. str_eq a b)
              "h"
              "secret"
              "l"
              "u"
              table
            ≡ (ok message, after_remove scanning (λ a b. str_eq a b) of_priority "h" "l" table)))
remove-hands_over_example =
    remove-hands_over scanning (λ a b. str_eq a b) of_priority "h" "secret" "l" "u" table
      not_currency

-- A portfolio with the first of two currencies
abbrev in_dollars : Referrer
in_dollars = record { id = "pf"; ref = λ c. if str_eq c "currency_id" then some "h" else none }

abbrev currencies : Db
currencies = record table { portfolios = in_dollars ∷ [] }

abbrev one_currency : Db
one_currency = record currencies {
  properties = repoint scanning "h" "l" ("currency_id" ∷ []) currencies.properties;
  items = low ∷ [];
}

-- After the first of two currencies is removed, a new one is given the order of the other.
second_again :
    (create scanning currency "n" "EUR" true (record table { items = low ∷ [] })).1.items
    ≡ low ∷ record { id = "n"; name = "EUR"; is_active = true; order = 2 } ∷ []
unfolding create find_by_name next_order
second_again = refl

moved_down :
    (reorder scanning priority "h" 2 table).1.items
    ≡ record high { order = 2 } ∷ record low { order = 1 } ∷ []
unfolding reorder find_by_id find_all update_many updates_for new_order
moved_down = refl

-- An order past the number of items is written as it is.
moved_past : (reorder scanning priority "l" 9 table).1.items ≡ high ∷ record low { order = 9 } ∷ []
unfolding reorder find_by_id find_all update_many updates_for new_order
moved_past = refl
