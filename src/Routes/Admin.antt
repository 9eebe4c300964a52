-- ===== src/Routes/Admin.antt =====
-- Further routes of backend/src/index.ts: POST /api/collateral with an image, GET /api/v1/collateral, the
-- deleted collateral, the query of the audit log and the manual run of the health factor job; and POST
-- /alerts/webhook of backend/src/routes/v1.ts.
pub mod Laws
use stellar_kraal.Common.{
  ◌<>◌, ltb, str_eq, if◌then◌else◌, length, filter_by, put, ℕ, zero, suc, ◌-◌, ◌*◌, ◌/◌, ◌<◌, min,
  String, ap, Bool, true, false, not, ◌&&◌, ◌||◌, Option, none, some, List, [], ◌∷◌,
}
use stellar_kraal.Http.{User, key_of, is_admin, Outcome, resolved, rejected, Reply, reply, refuse}
use stellar_kraal.Auth.ApiKey.{known_key}
use stellar_kraal.Store.Records.{CollateralRecord, Store}
use stellar_kraal.Store.Paging.{truthy, DateBound, invalid_date, instant, given}
use stellar_kraal.Store.Collateral.{
  CollateralFilters, CollateralInput, insert_collateral, list_collateral, restore_collateral,
  list_deleted_collateral,
}
use stellar_kraal.Alerting.{Channels, Notification, LastFired, fire_alert, backup_failure}
use stellar_kraal.HealthJob.{JobConfig, JobState, run_health_factor_job}
use stellar_kraal.Caches.Responses.{invalidate_cache}
use stellar_kraal.Routes.Collateral.{Site}

-- The fields of the form, `none` if missing or no string; `Number` of the age and of the weight is
-- `none` where it is not finite or negative, and a whole number otherwise; the name under which multer
-- has stored the image, `none` without one.
pub record AnimalForm : Type 0 where
  pub species : Option String
  pub breed : Option String
  pub age : Option String
  pub weight : Option String
  pub filename : Option String

-- `!v || v.trim() === ''`, or the trimmed text.
abbrev pub filled : (String → String) → Option String → Option String
filled trim v = elim (truthy v) [ none ↦ none | some t ↦ truthy (some (trim t)) ]

abbrev pub number_of : (String → Option ℕ) → Option String → Option ℕ
number_of number v = elim (truthy v) [ none ↦ none | some t ↦ number t ]

-- `x <= 0` is refused as well.
abbrev pub positive_of : (String → Option ℕ) → Option String → Option ℕ
positive_of number v = elim (number_of number v) [
  | none ↦ none
  | some zero ↦ none
  | some (suc n) ↦ some (suc n)
]

unfoldable pub register_animal_route :
    {B : Type 0}
    → (String → String)
    → (String → Option ℕ)
    → ℕ
    → String
    → Option User
    → AnimalForm
    → Site B
    → Reply CollateralRecord × Site B
register_animal_route trim number now id user form site = elim (filled trim form.species) [
  | none ↦ (refuse 400 "species is required", site)
  | some species ↦ elim (filled trim form.breed) [
    | none ↦ (refuse 400 "breed is required", site)
    | some breed ↦ elim (number_of number form.age) [
      | none ↦ (refuse 400 "age must be a non-negative number", site)
      | some age ↦ elim (positive_of number form.weight) [
        | none ↦ (refuse 400 "weight must be a positive number", site)
        | some weight ↦ elim form.filename [
          | none ↦ (refuse 400 "image file is required", site)
          | some filename ↦ elim (known_key (key_of user)) [
            | none ↦ (refuse 401 "Authenticated wallet address required", site)
            | some owner ↦
                let made =
                  insert_collateral now
                    (record {
                      id = id;
                      owner = owner;
                      animal_type = species;
                      breed = some breed;
                      age_years = none;
                      weight_kg = none;
                      photo_url = none;
                      count = 1;
                      appraised_value = weight * 100;
                      species = some species;
                      age = some age;
                      weight = some weight;
                      image_url = some ("/uploads/" <> filename);
                      status = none;
                    })
                    site.store in
                (
                  reply 201 made.0,
                  record {
                    store = made.1;
                    responses = invalidate_cache "/api/collateral" site.responses;
                  },
                )
          ]
        ]
      ]
    ]
  ]
]

-- `req.query` of GET /api/v1/collateral: a number is `none` if it is no whole number.
pub record CollateralQuery : Type 0 where
  pub page : Option (Option ℕ)
  pub page_size : Option (Option ℕ)
  pub owner : Option String
  pub animal_type : Option String

pub record CollateralListing : Type 0 where
  pub rows : List CollateralRecord
  pub total : ℕ
  pub page : ℕ
  pub page_size : ℕ

abbrev pub of_type : Option String → List CollateralRecord → List CollateralRecord
of_type animal_type rows = elim (truthy animal_type) [
  | none ↦ rows
  | some t ↦ filter_by (λ r. str_eq r.animal_type t) rows
]

-- Behind the two checks: the page is asked of the store, and the animals are picked from that page.
unfoldable pub listing : ℕ → ℕ → CollateralQuery → Store → CollateralListing
listing page page_size q s =
    let result =
      list_collateral
        (record { page = some page; limit = some page_size; status = none; owner_id = q.owner })
        s in
    let rows = of_type q.animal_type result.rows in
    record {
      rows = rows;
      total = elim (truthy q.animal_type) [ none ↦ result.total | some t ↦ length rows ];
      page = result.page;
      page_size = result.limit;
    }

unfoldable pub list_collateral_route : CollateralQuery → Store → Reply CollateralListing
unfolding listing
list_collateral_route q s = elim (given q.page (some 1)) [
  | none ↦ refuse 400 "page must be a positive integer"
  | some page ↦
      if ltb page 1
      then refuse 400 "page must be a positive integer"
      else elim (given q.page_size (some 20)) [
        | none ↦ refuse 400 "pageSize must be between 1 and 100"
        | some size ↦
            if ltb size 1 || ltb 100 size
            then refuse 400 "pageSize must be between 1 and 100"
            else reply 200 (listing page size q s)
      ]
]

-- GET /api/admin/deleted/collateral
unfoldable pub deleted_collateral_route : Store → Reply (List CollateralRecord)
deleted_collateral_route s = reply 200 (list_deleted_collateral s)

-- POST /api/admin/restore/collateral/:id
unfoldable pub admin_restore_collateral_route : String → Store → Reply String × Store
admin_restore_collateral_route id s =
    let restored = restore_collateral id s in
    if not (restored.0)
    then (refuse 404 "Record not found or not deleted", restored.1)
    else (reply 200 id, restored.1)

abbrev pub is_admin_user : Option User → Bool
is_admin_user none = false
is_admin_user (some u) = is_admin u

-- `req.query` of GET /api/v1/admin/audit: a given date is read by `new Date`.
pub record AuditQuery : Type 0 where
  pub from : Option DateBound
  pub to : Option DateBound
  pub page : Option (Option ℕ)
  pub limit : Option (Option ℕ)

abbrev pub ms_90_days : ℕ
ms_90_days = 7776000000

-- A range that ends before it begins has a negative length, which is within the limit.
abbrev pub exceeds_range : Option DateBound → Option DateBound → Bool
exceeds_range (some (instant f)) (some (instant t)) = ltb ms_90_days (t - f)
exceeds_range _ _ = false

abbrev pub is_invalid : Option DateBound → Bool
is_invalid (some invalid_date) = true
is_invalid _ = false

-- The checks of the route: an answer, or the page and the limit to read.
unfoldable pub check_audit_query : Option User → AuditQuery → Reply (ℕ × ℕ)
check_audit_query user q =
    if not (is_admin_user user)
    then refuse 403 "Forbidden: admin role required"
    else elim (given q.page (some 1)) [
      | none ↦ refuse 400 "page must be a positive integer"
      | some page ↦
          if ltb page 1
          then refuse 400 "page must be a positive integer"
          else elim (given q.limit (some 20)) [
            | none ↦ refuse 400 "limit must be between 1 and 100"
            | some limit ↦
                if ltb limit 1 || ltb 100 limit
                then refuse 400 "limit must be between 1 and 100"
                else if is_invalid q.from
                then refuse 400 "from must be a valid ISO date"
                else if is_invalid q.to
                then refuse 400 "to must be a valid ISO date"
                else if exceeds_range q.from q.to
                then refuse 400 "Date range must not exceed 90 days"
                else reply 200 (page, limit)
          ]
    ]

-- POST /api/v1/admin/liquidation-check: the number of updated loans.
unfoldable pub liquidation_check_route :
    JobConfig → ℕ → Option User → JobState → (Reply ℕ × List Notification) × JobState
liquidation_check_route cfg now user st =
    let ran = run_health_factor_job cfg now st in
    if not (is_admin_user user)
    then ((refuse 403 "Forbidden: admin role required", []), st)
    else ((reply 200 ran.0, ran.1), ran.2)

-- The header `x-amz-sns-message-type` of POST /alerts/webhook, and what `JSON.parse` reads of a
-- notification: its detail type and the state of its detail, if it has them.
pub data SnsMessage : Type 0 where
  subscription : Option String → SnsMessage
  notification : Option (Option String × Option String) → SnsMessage
  other_message : SnsMessage

abbrev pub says : String → Option String → Bool
says t none = false
says t (some v) = str_eq v t

-- The answer's text, the URLs that are fetched, the alerts that are sent.
unfoldable pub sns_route :
    Channels → ℕ → SnsMessage → LastFired → (String × List String) × (List Notification × LastFired)
sns_route ch now (subscription url) fired = elim (truthy url) [
  | some u ↦ (("Subscribed", u ∷ []), ([], fired))
  | none ↦ (("OK", []), ([], fired))
]
sns_route ch now (notification none) fired = (("OK", []), ([], fired))
sns_route ch now (notification (some (detail_type, state))) fired =
    if says "Backup Job State Change" detail_type && says "FAILED" state
    then (("OK", []), fire_alert ch now backup_failure "AWS Backup job failed" fired)
    else (("OK", []), ([], fired))
sns_route ch now other_message fired = (("OK", []), ([], fired))
