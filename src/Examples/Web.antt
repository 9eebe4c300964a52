-- ===== src/Examples/Web.antt =====
-- The theorems on the caches and the routes at concrete inputs.
use stellar_kraal.Common.{
  length, ℕ, zero, suc, ◌≤◌, String, ◌≡◌, ◌⊎◌, true, Option, none, some, [], ◌∷◌,
}
use stellar_kraal.Http.{User, Outcome, resolved, rejected}
use stellar_kraal.Webhooks.{is_delivered, new_log, deliver}
use stellar_kraal.Webhooks.Laws.{HaveFailed, deliver_lem}
use stellar_kraal.Store.Records.{Store}
use stellar_kraal.Routes.Collateral.{
  AdminKeys, handle_delete_collateral-guarded, IsDeletion, handle_delete_collateral,
}
use stellar_kraal.Routes.Appraise.{AppraisalSite}
use stellar_kraal.Examples.Data.{herd}

abbrev pub no_keys : AdminKeys
no_keys = record { configured = none; x_admin_key = none; admin_api_key = none }

abbrev pub owner : Option User
owner = some (record { public_key = some "GA"; role = none })

-- The herd without loans.
abbrev pub free_herd : Store
free_herd = record herd { loans = [] }

handle_delete_collateral-guarded_example :
    IsDeletion 30 "c1" no_keys owner free_herd
      (handle_delete_collateral 30 "c1" no_keys owner free_herd)
handle_delete_collateral-guarded_example =
    handle_delete_collateral-guarded 30 "c1" no_keys owner free_herd

abbrev pub appraisal_site : AppraisalSite String
appraisal_site = record {
  store = herd;
  appraisals = record { cache = []; ttl_ms = 300000 };
  responses =
      ("/api/v1/collateral/c1/appraisals?::GA", record { body = "old"; cached_at = 3 })
      ∷ ("/api/collateral?::GA", record { body = "herd"; cached_at = 3 })
      ∷ [];
}

-- The third attempt succeeds.
abbrev pub third_time : ℕ → Outcome ℕ
third_time zero = rejected "timeout"
third_time (suc zero) = resolved 503
third_time (suc (suc n)) = resolved 204

deliver_lem_example :
    let (log, delays) = deliver (λ n. "n") third_time (λ n. n) (new_log "w1" "loan.repaid") in
    (log.attempts ≡ suc (length delays))
    × (log.attempts ≤ 5)
    × (((log.attempts ≡ 5) × (log.delivered_at ≡ none) × HaveFailed third_time 5 0)
        ⊎ ((k : ℕ) × (log.attempts ≡ suc k)
            × HaveFailed third_time k 0
            × (is_delivered (third_time k) ≡ true)
            × (log.delivered_at ≡ some k)))
deliver_lem_example = deliver_lem (λ n. "n") third_time (λ n. n) "w1" "loan.repaid"
