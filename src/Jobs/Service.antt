-- ===== src/Jobs/Service.antt =====
-- bulkCreateParserJobs of src/modules/external-api/external-recurring-jobs.service.ts. The parser
-- backend and its configuration are parameters; the log is left out.
use vnp_dbms_backend.Common.{
  ℕ, Bool, false, not, Option, none, some, List, [], ◌∷◌, ◌++◌, any, length, eqb, String, str_eq,
  Exec, pure, raise, gets, modify, when, or_raise, ◌>>=◌, ◌>>◌, Error, err, bad_request, not_found,
  internal, bad_gateway,
}
use vnp_dbms_backend.Common.Prisma.{Prisma}
use vnp_dbms_backend.Dates.Text.{Text}
use vnp_dbms_backend.Dates.Text
use vnp_dbms_backend.Dates.Order.{text_lt}
use vnp_dbms_backend.Dates.RunDate.{should_calc}
use vnp_dbms_backend.Jobs.Window.{
  Ota, Property, columns, job_priority, Reason, Outcome, skipped, window, job_window,
}

-- `BulkCreateParserJobsDto`
pub record Dto : Type 0 where
  pub property_ids : List String
  pub ota_type : Ota
  pub start_date : Option Text
  pub end_date : Option Text

-- `ParserJobEntryPayload`
pub record Job : Type 0 where
  pub parent_id : String
  pub ota_type : Ota
  pub start_date : Text
  pub end_date : Text
  pub billing_type : Option String
  pub priority : ℕ
  pub booking_otp_number : Option String

-- `BulkCreateParserJobsPropertyResult`, without the OTA, which is that of the request
pub record Summary : Type 0 where
  pub property_id : String
  pub name : String
  pub jobs_created : List (Text × Text)
  pub skipped_otas : List Reason

-- The table, and what was posted to the parser backend
pub record Db : Type 0 where
  pub properties : List Property
  pub posted : List (List Job)

-- The status and the body; `none` is no body.
pub record Relay : Type 0 where
  pub status : ℕ
  pub body : Option String

-- What `axios.post` comes to: a response, an error response, no response, or another exception
pub data Answer : Type 0 where
  answered : Relay → Answer
  refused : Relay → Answer
  unreachable : Answer
  failed : Error → Answer

abbrev pub created_for : Outcome → List (Text × Text)
created_for (skipped r) = []
created_for (window start_date end_date) = (start_date, end_date) ∷ []

abbrev pub skipped_for : Outcome → List Reason
skipped_for (skipped r) = r ∷ []
skipped_for (window start_date end_date) = []

abbrev pub summary_of : Property → Outcome → Summary
summary_of p o = record {
  property_id = p.id;
  name = p.name;
  jobs_created = created_for o;
  skipped_otas = skipped_for o;
}

abbrev pub jobs_of : Ota → Property → Outcome → List Job
jobs_of ota p (skipped r) = []
jobs_of ota p (window start end) =
    record {
      parent_id = p.id;
      ota_type = ota;
      start_date = start;
      end_date = end;
      billing_type = (columns ota p).billing_type;
      priority = job_priority (columns ota p).priority;
      booking_otp_number = p.booking_otp_number;
    }
    ∷ []

-- `{ message: 'Processing', data: null }`
abbrev processing : Option String
processing = some "Processing"

abbrev or_processing : Option String → Option String
or_processing none = processing
or_processing (some b) = some b

module _ (parse_other : Text → Option ℕ) (dto : Dto) where
  -- The loop over the properties; `none` is a RangeError.
  unfoldable pub build : List Property → Option (List Job × List Summary)
  build [] = some ([], [])
  build (p ∷ ps) =
      Text.◌>>=◌
        (job_window parse_other dto.ota_type (columns dto.ota_type p) dto.start_date dto.end_date)
        λ o.
          Text.◌>>=◌ (build ps)
            λ (jobs, summary). some (jobs_of dto.ota_type p o ++ jobs, summary_of p o ∷ summary)

-- `dto.start_date && dto.end_date && dto.end_date < dto.start_date`
abbrev pub ends_early : Option Text → Option Text → Bool
ends_early none e = false
ends_early (some s) none = false
ends_early (some s) (some e) = text_lt e s

unfoldable pub backwards : Dto → Bool
backwards dto = ends_early (should_calc dto.start_date) (should_calc dto.end_date)

-- `backend_url` says whether the URL of the backend is configured, `communication` whether the secret is.
module _ (prisma : Prisma) (parse_other : Text → Option ℕ) (backend_url communication : Bool)
    (post : List Job → Answer) where
  abbrev relayed : Answer → Exec Db Relay
  relayed (answered r) = pure (record { status = r.status; body = or_processing r.body })
  relayed (refused r) = pure r
  relayed unreachable = raise bad_gateway "Parser backend is unreachable. Please try again later."
  relayed (failed e) = λ db. (err e, db)

  unfoldable pub forward : List Job → Exec Db Relay
  forward [] = pure (record { status = 200; body = processing })
  forward (j ∷ js) = do
    when (not communication) (
        raise bad_gateway
          "JWT_COMMUNICATION_SECRET is not configured. Cannot authenticate with scraper backend.")
    modify (λ db. record db { posted = db.posted ++ (j ∷ js) ∷ [] })
    relayed (post (j ∷ js))

  unfoldable pub bulk_create_parser_jobs : Dto → Exec Db (Relay × List Summary)
  bulk_create_parser_jobs dto = do
    when (not backend_url)
        (raise bad_gateway "Scraper backend URL is not configured. Contact the administrator.")
    when (backwards dto) (raise bad_request "end_date is before start_date")
    properties ←
        gets (λ db. prisma.find_many (λ p. any (str_eq p.id) dto.property_ids) db.properties)
    when (not (eqb (length properties) (length dto.property_ids)))
        (raise not_found "The following property IDs were not found")
    (jobs, summary) ← or_raise (build parse_other dto properties) internal "Invalid time value"
    relay ← forward jobs
    pure (relay, summary)
