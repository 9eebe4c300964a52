-- ===== src/Examples/Services.antt =====
-- The theorems on alerts, the health job and the connection pool at concrete inputs.
use stellar_kraal.Common.{
  str_eq_iff, length, get, ℕ, zero, suc, ◌≤◌, String, ◌≡◌, refl, ◌≢◌, ◌↔◌, true, false, none, some,
  [], arith,
}
use stellar_kraal.Http.{Outcome, resolved, rejected}
use stellar_kraal.Store.Records.{LoanRecord}
use stellar_kraal.Alerting.{Channels, is_cooling_down, fire_alert, rpc_failure, db_error}
use stellar_kraal.Alerting.Laws.{fire_alert-cooldown}
use stellar_kraal.Loans.Liquidate.{LiquidateInput}
use stellar_kraal.HealthJob.{JobConfig, JobState, job_factor, job_status, run_health_factor_job}
use stellar_kraal.HealthJob.Effect.{refreshed}
use stellar_kraal.HealthJob.Table.{
  run_health_factor_job-row, IsMarked, run_health_factor_job-liquidate_check,
}
use stellar_kraal.Pool.{ConnectionPool, new_pool, acquire, release}
use stellar_kraal.Pool.Invariant.{
  IsValid, take_one, give_back, here, next, acquire-none, Reach-IsValid,
}
use stellar_kraal.Examples.Data.{herd_loan, herd}

abbrev pub slack_only : Channels
slack_only = record { slack = true; pagerduty = false }

other_rule : rpc_failure.id ≢ db_error.id
other_rule e = ground (arith, (str_eq_iff rpc_failure.id db_error.id).1 e)

fire_alert-cooldown_example :
    let fired' = (fire_alert slack_only 100 rpc_failure "down" []).1 in
    (fire_alert slack_only 700 rpc_failure "still" fired' ≡ ([], fired'))
    × (is_cooling_down 700 db_error fired' ≡ is_cooling_down 700 db_error [])
unfolding is_cooling_down get
fire_alert-cooldown_example =
    fire_alert-cooldown slack_only 100 700 rpc_failure rpc_failure db_error "down" "still" []
      (omega arith) refl other_rule refl

abbrev pub hourly : JobConfig
hourly = record {
  warn_threshold = 12000;
  crit_threshold = 10000;
  channels = slack_only;
  show = λ r. "n";
}

abbrev pub quiet : JobState
quiet = record { store = herd; alert_cooldowns = []; last_fired = [] }

run_health_factor_job-row_example :
    (get "l1" (run_health_factor_job hourly 90 quiet).2.store.loans
      ≡ some (refreshed herd herd_loan))
    × ((refreshed herd herd_loan).status ≡ some (job_status (job_factor herd herd_loan)))
unfolding get
run_health_factor_job-row_example =
    run_health_factor_job-row hourly 90 quiet "l1" herd_loan (refl, (refl, tt)) (refl, (refl, tt))
      refl

abbrev pub claim_on_herd : LiquidateInput
claim_on_herd = record { liquidator = "GL"; loan_id = "l1"; repay_amount = 900 }

run_health_factor_job-liquidate_check_example :
    (r' : LoanRecord) × IsMarked claim_on_herd
      (run_health_factor_job hourly 90 quiet).2.store
      herd_loan
      r'
unfolding get
run_health_factor_job-liquidate_check_example =
    run_health_factor_job-liquidate_check hourly 90 quiet claim_on_herd herd_loan (refl, (refl, tt))
      (refl, (refl, tt)) refl refl

-- Two servers at most, and one at first.
abbrev pub small_pool : ConnectionPool
small_pool = new_pool 1 2

Reach-IsValid_example : IsValid (release 0 (acquire small_pool).1)
unfolding acquire new_pool
Reach-IsValid_example =
    Reach-IsValid 1 2 (omega arith)
      (next (next here (take_one small_pool)) (give_back 0 (acquire small_pool).1 refl))

acquire-none_example :
    ((acquire small_pool).0 ≡ none)
    ↔ ((small_pool.pool ≡ []) × (small_pool.max_size ≤ length small_pool.in_use))
acquire-none_example = acquire-none small_pool

abbrev pub second_time : ℕ → Outcome String
second_time zero = rejected "timeout"
second_time (suc n) = resolved "ok"
