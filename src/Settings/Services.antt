-- ===== src/Settings/Services.antt =====
-- The six services, each with its own table of items.
use vnp_dbms_backend.Common.{String, Bool, true, false, [], ◌∷◌}
use vnp_dbms_backend.Common.Prisma.{Prisma}
use vnp_dbms_backend.Settings.Service.{Setting, Call, Db, run}

abbrev pub priority : Setting
priority = record {
  noun = "Priority";
  lower_noun = "priority";
  key = "name";
  columns = "priority_id" ∷ [];
  portfolio_columns = [];
  counted = false;
}

abbrev pub billing_type : Setting
billing_type = record {
  noun = "Billing type";
  lower_noun = "billing type";
  key = "name";
  columns = "expedia_billing_type_id" ∷ "booking_billing_type_id" ∷ "agoda_billing_type_id" ∷ [];
  portfolio_columns = [];
  counted = false;
}

abbrev pub frequency : Setting
frequency = record {
  noun = "Frequency";
  lower_noun = "frequency";
  key = "name";
  columns = "expedia_frequency_id" ∷ "booking_frequency_id" ∷ "agoda_frequency_id" ∷ [];
  portfolio_columns = [];
  counted = false;
}

abbrev pub processor : Setting
processor = record {
  noun = "Processor";
  lower_noun = "processor";
  key = "name";
  columns = "expedia_processor_id" ∷ "booking_processor_id" ∷ "agoda_processor_id" ∷ [];
  portfolio_columns = [];
  counted = false;
}

abbrev pub service_type : Setting
service_type = record {
  noun = "Service type";
  lower_noun = "service type";
  key = "name";
  columns =
      "service_type_id" ∷ "expedia_service_type_id" ∷ "booking_service_type_id"
      ∷ "agoda_service_type_id" ∷ [];
  portfolio_columns = "service_type_id" ∷ [];
  counted = true;
}

-- It names no column of portfolios, though those of the schema have a `currency_id`.
abbrev pub currency : Setting
currency = record {
  noun = "Currency";
  lower_noun = "currency";
  key = "code";
  columns = "currency_id" ∷ [];
  portfolio_columns = [];
  counted = true;
}

module _ (prisma : Prisma) (compare : String → String → Bool) where
  unfoldable pub run_priority : Call → Db → Db
  run_priority = run prisma compare priority

  unfoldable pub run_billing_type : Call → Db → Db
  run_billing_type = run prisma compare billing_type

  unfoldable pub run_frequency : Call → Db → Db
  run_frequency = run prisma compare frequency

  unfoldable pub run_processor : Call → Db → Db
  run_processor = run prisma compare processor

  -- The last two have no `toggle`.
  unfoldable pub run_service_type : Call → Db → Db
  run_service_type (Call.toggles id) db = db
  run_service_type c db = run prisma compare service_type c db

  unfoldable pub run_currency : Call → Db → Db
  run_currency (Call.toggles id) db = db
  run_currency c db = run prisma compare currency c db

-- One of the six
pub data Kind : Type 0 where
  of_priority of_billing_type of_frequency of_processor of_service_type of_currency : Kind

abbrev pub setting : Kind → Setting
setting of_priority = priority
setting of_billing_type = billing_type
setting of_frequency = frequency
setting of_processor = processor
setting of_service_type = service_type
setting of_currency = currency

unfoldable pub run_service :
    (prisma : Prisma) (compare : String → String → Bool) → Kind → Call → Db → Db
run_service prisma compare of_priority = run_priority prisma compare
run_service prisma compare of_billing_type = run_billing_type prisma compare
run_service prisma compare of_frequency = run_frequency prisma compare
run_service prisma compare of_processor = run_processor prisma compare
run_service prisma compare of_service_type = run_service_type prisma compare
run_service prisma compare of_currency = run_currency prisma compare
