-- ===== src/Routes/Appraise.antt =====
-- PUT /api/v1/collateral/:id/appraise and GET /api/v1/collateral/:id/appraisals in
-- backend/src/index.ts. A new value goes to the record, its history and the appraisal cache, and the
-- cached listings of the history are dropped.
use stellar_kraal.Common.{
  ◌<>◌, ltb, ◌==◌, str_eq, if◌then◌else◌, Dict, ℕ, String, Bool, false, not, ◌||◌, Option, none,
  some,
}
use stellar_kraal.Http.{User, key_of, is_admin, Reply, reply, refuse}
use stellar_kraal.Store.Records.{AppraisalEntry, CollateralRecord, Store}
use stellar_kraal.Store.Paging.{Page}
use stellar_kraal.Store.Collateral.{appraised, add_appraisal, get_appraisal_history, get_collateral}
use stellar_kraal.Caches.Appraisals.{AppraisalCache, set_appraisal}
use stellar_kraal.Caches.Responses.{CachedBody, invalidate_cache}

pub record AppraisalSite (B : Type 0) : Type 0 where
  pub store : Store
  pub appraisals : AppraisalCache
  pub responses : Dict (CachedBody B)

abbrev pub appraisals_path : String → String
appraisals_path id = "/api/v1/collateral/" <> id <> "/appraisals"

-- `req.body.appraised_value`: `none` for what is no integer. The record answered is the stored object,
-- so it has the new history entry too.
unfoldable pub appraise_route :
    {B : Type 0}
    → ℕ
    → String
    → Option ℕ
    → Option User
    → AppraisalSite B
    → Reply CollateralRecord × AppraisalSite B
appraise_route now id value user site = elim value [
  | none ↦ (refuse 400 "appraised_value must be a positive integer", site)
  | some v ↦
      if v == 0
      then (refuse 400 "appraised_value must be a positive integer", site)
      else elim (get_collateral id site.store) [
        | none ↦ (refuse 404 "Record not found", site)
        | some row ↦ (
          reply 200 (appraised now v (key_of user) row),
          record {
            store = (add_appraisal now id v (key_of user) site.store).1;
            appraisals = set_appraisal now id v site.appraisals;
            responses = invalidate_cache (appraisals_path id) site.responses;
          },
        )
      ]
]

-- `user.role !== 'admin' && user.publicKey !== record.owner`, negated
abbrev pub may_read : Option User → CollateralRecord → Bool
may_read none row = false
may_read (some u) row =
    is_admin u || elim u.public_key [ none ↦ false | some k ↦ str_eq k row.owner ]

-- The query's page and limit: `none` for what is no integer.
unfoldable pub appraisals_route :
    String → Option User → Option ℕ → Option ℕ → Store → Reply (Option (Page AppraisalEntry))
appraisals_route id user page limit s = elim (get_collateral id s) [
  | none ↦ refuse 404 "Collateral not found"
  | some row ↦ if not (may_read user row) then refuse 404 "Collateral not found" else elim page [
    | none ↦ refuse 400 "page must be a positive integer"
    | some p ↦ if p == 0 then refuse 400 "page must be a positive integer" else elim limit [
      | none ↦ refuse 400 "limit must be between 1 and 100"
      | some l ↦
          if l == 0 || ltb 100 l
          then refuse 400 "limit must be between 1 and 100"
          else reply 200 (get_appraisal_history id p l s)
    ]
  ]
]
