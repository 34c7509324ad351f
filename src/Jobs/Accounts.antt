-- ===== src/Jobs/Accounts.antt =====
-- What bulkCreateParserJobs tells of the properties is what it posts.
use vnp_dbms_backend.Common.{
  ℕ, ◌+◌, ◌≡◌, ◌≢◌, Result, ok, get_or, refl, ap, ◌↔◌, ◌⊎◌, inl, inr, Bool, true, false, Option,
  none, some, List, [], ◌∷◌, ◌++◌, map, any, length, All, In, eqb, String, str_eq, pure, Error,
  error, err, bad_request, not_found, internal, bad_gateway, ◌>>=◌, arith, Bool-cases, Option-cases,
}
use vnp_dbms_backend.Common.Prisma.{Prisma}
use vnp_dbms_backend.Dates.Text.{Text}
use vnp_dbms_backend.Jobs.Window.{Ota, Property, columns, Outcome, skipped, window, job_window}
use vnp_dbms_backend.Jobs.Service.{
  Dto, Job, Summary, Relay, Db, Answer, build, jobs_of, summary_of, backwards, forward,
  bulk_create_parser_jobs,
}

-- The property, the start and the end of a job
abbrev pub job_key : Job → String × Text × Text
job_key j = (j.parent_id, j.start_date, j.end_date)

abbrev created_keys : String → List (Text × Text) → List (String × Text × Text)
created_keys id [] = []
created_keys id ((s, e) ∷ ds) = (id, s, e) ∷ created_keys id ds

abbrev pub listed_keys : List Summary → List (String × Text × Text)
listed_keys [] = []
listed_keys (s ∷ ss) = created_keys s.property_id s.jobs_created ++ listed_keys ss

-- The summary has one entry for each of the properties, in their order, with either one job or one
-- reason, and lists the jobs.
pub record Accounts (ps : List Property) (jobs : List Job) (summary : List Summary) : Type 0 where
  pub entries : map (λ s. s.property_id) summary ≡ map (λ p. p.id) ps
  pub one_each : All (λ s. length s.jobs_created + length s.skipped_otas ≡ 1) summary
  pub listed : map job_key jobs ≡ listed_keys summary

Accounts-cons :
    (ota : Ota) (p : Property) (ps : List Property) (jobs : List Job) (summary : List Summary)
    (o : Outcome)
    → Accounts ps jobs summary
    → Accounts (p ∷ ps) (jobs_of ota p o ++ jobs) (summary_of p o ∷ summary)
Accounts-cons ota p ps jobs summary (skipped r) a = record {
  entries = ap (λ l. p.id ∷ l) a.entries;
  one_each = (refl, a.one_each);
  listed = a.listed;
}
Accounts-cons ota p ps jobs summary (window start end) a = record {
  entries = ap (λ l. p.id ∷ l) a.entries;
  one_each = (refl, a.one_each);
  listed = ap (λ l. (p.id, start, end) ∷ l) a.listed;
}

module _ (parse_other : Text → Option ℕ) (dto : Dto) where
  build-Accounts :
      (ps : List Property)
      → (build parse_other dto ps ≡ none)
        ⊎ ((jobs : List Job) × (summary : List Summary) × (build parse_other dto ps
              ≡ some (jobs, summary))
            × Accounts ps jobs summary)
  unfolding build
  build-Accounts [] = inr ([], [], refl, record { entries = refl; one_each = tt; listed = refl })
  build-Accounts (p ∷ ps) =
      elim (Option-cases (
        job_window parse_other dto.ota_type (columns dto.ota_type p) dto.start_date dto.end_date)) [
          | inl n ↦ inl (rw n refl)
          | inr (o, h) ↦ elim (build-Accounts ps) [
            | inl n ↦ inl (rw (h, n) refl)
            | inr (jobs, summary, e, a) ↦ inr (
              jobs_of dto.ota_type p o ++ jobs,
              summary_of p o ∷ summary,
              rw (h, e) refl,
              Accounts-cons dto.ota_type p ps jobs summary o a,
            )
          ]
        ]

-- The properties of the request
abbrev pub AreFound : Dto → Db → List Property → Type 0
AreFound dto db ps =
    (p : Property) → In p ps ↔ (In p db.properties × (any (str_eq p.id) dto.property_ids ≡ true))

abbrev pub Selected : Dto → Db → List Property → Type 0
Selected dto db ps = (length ps ≡ length dto.property_ids) × AreFound dto db ps

-- Why a call is refused before anything is posted.
abbrev pub Rejects : (Text → Option ℕ) → (backend_url : Bool) → Dto → Db → Error → Type 0
Rejects parse_other backend_url dto db e =
    ((backend_url ≡ false)
      × (e ≡ error bad_gateway "Scraper backend URL is not configured. Contact the administrator."))
    ⊎ ((backwards dto ≡ true) × (e ≡ error bad_request "end_date is before start_date"))
    ⊎ ((ps : List Property) × (length ps ≢ length dto.property_ids)
        × AreFound dto db ps
        × (e ≡ error not_found "The following property IDs were not found"))
    ⊎ ((ps : List Property) × Selected dto db ps
        × (build parse_other dto ps ≡ none)
        × (e ≡ error internal "Invalid time value"))

-- What the caller is told of a post: the status and the body of a response, also of an error response; an exception
-- where there is no response.
abbrev pub told : Answer → List Summary → Result (Relay × List Summary)
told (Answer.answered a) summary =
    ok (record { status = a.status; body = some (get_or a.body "Processing") }, summary)
told (Answer.refused a) summary = ok (a, summary)
told Answer.unreachable summary =
    err (error bad_gateway "Parser backend is unreachable. Please try again later.")
told (Answer.failed e) summary = err e

-- How a call with these jobs ends: nothing is posted for none; without the secret for the communication the call throws
-- and posts nothing; else the jobs are posted in one request, and the outcome is that of the post.
abbrev pub Ends :
    (communication : Bool) (post : List Job → Answer)
    → List Job
    → List Summary
    → Db
    → Result (Relay × List Summary) × Db
    → Type 0
Ends communication post jobs summary db r =
    ((jobs ≡ []) × (r ≡ (ok (record { status = 200; body = some "Processing" }, summary), db)))
    ⊎ ((jobs ≢ [])
        × (communication ≡ false)
        × (r ≡ (
          err (
              error bad_gateway
                "JWT_COMMUNICATION_SECRET is not configured. Cannot authenticate with scraper backend."),
          db,
        )))
    ⊎ ((jobs ≢ [])
        × (communication ≡ true)
        × (r ≡ (told (post jobs) summary, record db { posted = db.posted ++ jobs ∷ [] })))

module _ (prisma : Prisma) (parse_other : Text → Option ℕ) (backend_url : Bool)
    (post : List Job → Answer) (summary : List Summary) (db : Db) where
  forward-Ends :
      (communication : Bool) (jobs : List Job)
      → Ends communication post jobs summary db (
          (forward prisma parse_other backend_url communication post jobs >>= λ relay.
          pure (relay, summary))
            db)
  unfolding forward
  forward-Ends communication [] = inl (refl, refl)
  forward-Ends false (j ∷ js) = inr (inl (λ e. cc e, refl, refl))
  forward-Ends true (j ∷ js) = inr (inr (λ e. cc e, refl, posted (post (j ∷ js)) refl))
    where
      posted :
          (a : Answer)
          → post (j ∷ js) ≡ a
          → (forward prisma parse_other backend_url true post (j ∷ js) >>= λ relay.
                pure (relay, summary))
              db
            ≡ (told (post (j ∷ js)) summary, record db { posted = db.posted ++ (j ∷ js) ∷ [] })
      posted (Answer.answered a) e = elim (Option-cases a.body) [
        | inl no_body ↦ rw (forward, e, no_body) refl
        | inr (b, body) ↦ rw (forward, e, body) refl
      ]
      posted (Answer.refused a) e = rw (forward, e) refl
      posted Answer.unreachable e = rw (forward, e) refl
      posted (Answer.failed x) e = rw (forward, e) refl

-- Either bulkCreateParserJobs throws before it posts anything, because the URL is not configured, the request ends before
-- it starts, the properties of the requested ids are not as many as the ids, or a date of one is no
-- time; or the request does not end before it starts, there are as many properties of the requested ids as ids, the summary has one entry for
-- each, with one job or one reason, and lists exactly the jobs. If there are none, nothing is posted and the answer is
-- 200; without the secret for the communication the call throws and posts nothing; otherwise
-- exactly these jobs are posted, in one request, and the answer is that of the post.
pub bulk_create_parser_jobs-Accounts :
    (prisma : Prisma) (parse_other : Text → Option ℕ) (backend_url communication : Bool)
    (post : List Job → Answer) (dto : Dto) (db : Db)
    → let call = bulk_create_parser_jobs prisma parse_other backend_url communication post dto db in
      ((e : Error) × Rejects parse_other backend_url dto db e × (call ≡ (err e, db)))
      ⊎ ((ps : List Property) × (jobs : List Job) × (summary : List Summary) × (backwards dto
            ≡ false)
          × Selected dto db ps
          × Accounts ps jobs summary
          × Ends communication post jobs summary db call)
unfolding bulk_create_parser_jobs
bulk_create_parser_jobs-Accounts prisma parse_other true communication post dto db =
    elim (Bool-cases (backwards dto)) [
      | inl early ↦ inl (
        error bad_request "end_date is before start_date",
        inr (inl (early, refl)),
        rw early refl,
      )
      | inr good ↦
          let found : List Property =
            prisma.find_many (λ p. any (str_eq p.id) dto.property_ids) db.properties in
          let are_found : AreFound dto db found =
            λ p. prisma.many_iff (λ q. any (str_eq q.id) dto.property_ids) db.properties p in
          elim (Bool-cases (eqb (length found) (length dto.property_ids))) [
            | inr few ↦ inl (
              error not_found "The following property IDs were not found",
              inr (inr (inl (found, λ e. ground (arith, few, e), are_found, refl))),
              rw (good, few) refl,
            )
            | inl all ↦
                let as_many : length found ≡ length dto.property_ids = ground (arith, all) in
                elim (build-Accounts parse_other dto found) [
                  | inl n ↦ inl (
                    error internal "Invalid time value",
                    inr (inr (inr (found, (as_many, are_found), n, refl))),
                    rw (good, all, n) refl,
                  )
                  | inr (jobs, summary, e, a) ↦ inr (
                    found,
                    jobs,
                    summary,
                    good,
                    (as_many, are_found),
                    a,
                    rw (good, all, e)
                        (forward-Ends prisma parse_other true post summary db communication jobs),
                  )
                ]
          ]
    ]
bulk_create_parser_jobs-Accounts prisma parse_other false communication post dto db = inl (
  error bad_gateway "Scraper backend URL is not configured. Contact the administrator.",
  inl (refl, refl),
  refl,
)
