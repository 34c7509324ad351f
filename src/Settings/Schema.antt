-- ===== src/Settings/Schema.antt =====
-- The columns of prisma/schema.prisma that refer to the items of the six services, against the columns that
-- the services hand over: those of CurrencyService leave out the currency of a portfolio.
use vnp_dbms_backend.Common.{
  String, ◌≡◌, ◌≢◌, refl, ◌⊎◌, Bool, true, false, not, List, [], ◌∷◌, map, filter, In, Error, ok,
  err,
}
use vnp_dbms_backend.Common.Prisma.{Prisma}
use vnp_dbms_backend.Settings.Service.{Referrer, Db, Call, has_id, remove}
use vnp_dbms_backend.Settings.Services.{
  Kind, of_priority, of_billing_type, of_frequency, of_processor, of_service_type, of_currency,
  setting, run_service,
}
use vnp_dbms_backend.Settings.Reorder.{UniqueIds}
use vnp_dbms_backend.Settings.WellFormed.{UniqueOrders, Refers, WellFormed}
use vnp_dbms_backend.Settings.Changes.{Fresh}
use vnp_dbms_backend.Settings.Kept.{run_service-WellFormed}
use vnp_dbms_backend.Settings.Remove.{Confirmed, Present, handed_over, remove-or_throws}

-- The relations of `model Property` to the items of a service
unfoldable pub property_columns : Kind → List String
property_columns of_priority = "priority_id" ∷ []
property_columns of_billing_type =
    "expedia_billing_type_id" ∷ "booking_billing_type_id" ∷ "agoda_billing_type_id" ∷ []
property_columns of_frequency =
    "expedia_frequency_id" ∷ "booking_frequency_id" ∷ "agoda_frequency_id" ∷ []
property_columns of_processor =
    "expedia_processor_id" ∷ "booking_processor_id" ∷ "agoda_processor_id" ∷ []
property_columns of_service_type =
    "service_type_id" ∷ "expedia_service_type_id" ∷ "booking_service_type_id"
    ∷ "agoda_service_type_id" ∷ []
property_columns of_currency = "currency_id" ∷ []

-- The relations of `model Portfolio`
unfoldable pub portfolio_columns : Kind → List String
portfolio_columns of_service_type = "service_type_id" ∷ []
portfolio_columns of_currency = "currency_id" ∷ []
portfolio_columns _ = []

-- The services whose orders stay distinct when items are added and removed.
abbrev pub keeps_orders : Kind → Bool
keeps_orders of_service_type = false
keeps_orders of_currency = false
keeps_orders _ = true

-- The ids of the items are distinct, the orders too where the service keeps them so, and every column of the schema that
-- refers to an item refers to one that exists.
pub record IsIntact (k : Kind) (db : Db) : Type 0 where
  pub ids : UniqueIds db.items
  pub orders : keeps_orders k ≡ true → UniqueOrders db.items
  pub properties : (p : Referrer) → In p db.properties → Refers (property_columns k) db.items p
  pub portfolios : (p : Referrer) → In p db.portfolios → Refers (portfolio_columns k) db.items p

-- What the code names is what the schema has, for five of the six.
IsIntact-WellFormed :
    (k : Kind) (db : Db) → k ≢ of_currency → IsIntact k db → WellFormed (setting k) db
unfolding property_columns portfolio_columns
IsIntact-WellFormed of_priority db other i = record {
  unique_ids = i.ids;
  unique_orders = λ u. i.orders refl;
  properties_refer = i.properties;
  portfolios_refer = i.portfolios;
}
IsIntact-WellFormed of_billing_type db other i = record {
  unique_ids = i.ids;
  unique_orders = λ u. i.orders refl;
  properties_refer = i.properties;
  portfolios_refer = i.portfolios;
}
IsIntact-WellFormed of_frequency db other i = record {
  unique_ids = i.ids;
  unique_orders = λ u. i.orders refl;
  properties_refer = i.properties;
  portfolios_refer = i.portfolios;
}
IsIntact-WellFormed of_processor db other i = record {
  unique_ids = i.ids;
  unique_orders = λ u. i.orders refl;
  properties_refer = i.properties;
  portfolios_refer = i.portfolios;
}
IsIntact-WellFormed of_service_type db other i = record {
  unique_ids = i.ids;
  unique_orders = λ u. cc u;
  properties_refer = i.properties;
  portfolios_refer = i.portfolios;
}
IsIntact-WellFormed of_currency db other i = absurd (other refl)

WellFormed-IsIntact :
    (k : Kind) (db : Db) → k ≢ of_currency → WellFormed (setting k) db → IsIntact k db
unfolding property_columns portfolio_columns
WellFormed-IsIntact of_priority db other w = record {
  ids = w.unique_ids;
  orders = λ u. w.unique_orders refl;
  properties = w.properties_refer;
  portfolios = w.portfolios_refer;
}
WellFormed-IsIntact of_billing_type db other w = record {
  ids = w.unique_ids;
  orders = λ u. w.unique_orders refl;
  properties = w.properties_refer;
  portfolios = w.portfolios_refer;
}
WellFormed-IsIntact of_frequency db other w = record {
  ids = w.unique_ids;
  orders = λ u. w.unique_orders refl;
  properties = w.properties_refer;
  portfolios = w.portfolios_refer;
}
WellFormed-IsIntact of_processor db other w = record {
  ids = w.unique_ids;
  orders = λ u. w.unique_orders refl;
  properties = w.properties_refer;
  portfolios = w.portfolios_refer;
}
WellFormed-IsIntact of_service_type db other w = record {
  ids = w.unique_ids;
  orders = λ u. cc u;
  properties = w.properties_refer;
  portfolios = w.portfolios_refer;
}
WellFormed-IsIntact of_currency db other w = absurd (other refl)

module _ (prisma : Prisma) (compare : String → String → Bool) where
  -- For each of the services but that of currencies: let the ids of the items be distinct, the orders too unless they
  -- are service types, and let every column of properties and portfolios that the schema relates to
  -- the items refer to one that exists; then this is so after every request (create, update, toggle,
  -- reorder to any number, remove), whether it succeeds or throws, if the id that the database gives a new item is new.
  pub run_service-IsIntact :
      (k : Kind) (c : Call) (db : Db)
      → k ≢ of_currency
      → Fresh c db
      → IsIntact k db
      → IsIntact k (run_service prisma compare k c db)
  run_service-IsIntact k c db other fresh i =
      WellFormed-IsIntact k (run_service prisma compare k c db) other
        (run_service-WellFormed prisma compare k c db fresh (IsIntact-WellFormed k db other i))

  -- What `remove` leaves: every column of the schema that referred to the item refers to the replacement.
  abbrev pub after_remove : Kind → (id replacement : String) → Db → Db
  after_remove k id replacement db = record db {
    properties = map (handed_over (property_columns k) id replacement) db.properties;
    portfolios = map (handed_over (portfolio_columns k) id replacement) db.portfolios;
    items = filter (λ x. not (has_id id x)) db.items;
  }

  -- For each of the services but that of currencies: either `remove` throws and changes nothing, or the user gave their
  -- password, the item and its replacement are two items of the table, and afterwards the item is gone,
  -- every column of properties and portfolios that the schema relates to the items and that referred
  -- to it refers to the replacement, and everything else is as it was.
  pub remove-hands_over :
      (k : Kind) (id password replacement user_id : String) (db : Db)
      → k ≢ of_currency
      → ((e : Error) × (remove prisma (setting k) compare id password replacement user_id db
            ≡ (err e, db)))
        ⊎ (Confirmed compare user_id password db
            × (id ≢ replacement)
            × Present id db
            × Present replacement db
            × (message : String) × (remove prisma
                  (setting k)
                  compare
                  id
                  password
                  replacement
                  user_id
                  db
                ≡ (ok message, after_remove k id replacement db)))
  unfolding property_columns portfolio_columns
  remove-hands_over of_priority id password replacement user_id db other =
      remove-or_throws prisma compare (setting of_priority) id password replacement user_id db
  remove-hands_over of_billing_type id password replacement user_id db other =
      remove-or_throws prisma compare (setting of_billing_type) id password replacement user_id db
  remove-hands_over of_frequency id password replacement user_id db other =
      remove-or_throws prisma compare (setting of_frequency) id password replacement user_id db
  remove-hands_over of_processor id password replacement user_id db other =
      remove-or_throws prisma compare (setting of_processor) id password replacement user_id db
  remove-hands_over of_service_type id password replacement user_id db other =
      remove-or_throws prisma compare (setting of_service_type) id password replacement user_id db
  remove-hands_over of_currency id password replacement user_id db other = absurd (other refl)
