-- ===== src/HealthJob.antt =====
-- backend/src/jobs/healthFactorJob.ts: the hourly health check of all open loans. One run is taken
-- at one instant of the clock, with no other request between its loans; health factors are exact
-- ratios.
pub mod Effect
pub mod Table
use stellar_kraal.Common.{
  ◌<>◌, ◌==◌, if◌then◌else◌, drop, Dict, get, put, ℕ, zero, suc, ◌+◌, ◌-◌, ◌*◌, ◌<◌, String, Bool,
  true, false, not, ◌||◌, Option, none, some, List, [], ◌∷◌, ◌++◌,
}
use stellar_kraal.Store.Records.{
  Ratio, LoanRecord, LoanStatus, active, at_risk, same_loan_status, holds, Store,
}
use stellar_kraal.Store.Collateral.{get_collateral}
use stellar_kraal.Store.Loans.{no_loan_updates, list_active_loans, update_loan}
use stellar_kraal.Loans.Liquidate.{scale, compute_health_factor, below, value_of}
use stellar_kraal.Alerting.{
  AlertRule, AlertSeverity, warning, critical, Channels, Notification, LastFired, within,
  fire_alert,
}

abbrev pub alert_cooldown_ms : ℕ
alert_cooldown_ms = 3600000

-- The configured thresholds, the alert channels, and the printing of a number.
pub record JobConfig : Type 0 where
  pub warn_threshold : ℕ
  pub crit_threshold : ℕ
  pub channels : Channels
  pub show : Ratio → String

pub record JobState : Type 0 where
  pub store : Store
  pub alert_cooldowns : Dict ℕ
  pub last_fired : LastFired

abbrev pub level_text : AlertSeverity → String
level_text warning = "warning"
level_text critical = "critical"

abbrev pub level_title : AlertSeverity → String
level_title warning = "Warning"
level_title critical = "Critical"

abbrev pub is_critical : AlertSeverity → Bool
is_critical warning = false
is_critical critical = true

abbrev pub cooldown_key : String → AlertSeverity → String
cooldown_key loan_id level = loan_id <> ":" <> level_text level

abbrev pub health_rule : String → AlertSeverity → AlertRule
health_rule loan_id level = record {
  id = "health_factor_" <> level_text level <> "_" <> loan_id;
  name = "Health Factor " <> level_title level;
  severity = level;
  cooldown_ms = alert_cooldown_ms;
  runbook = "liquidation-failure.md";
  pagerduty = is_critical level;
}

unfoldable pub is_on_cooldown : ℕ → String → Dict ℕ → Bool
is_on_cooldown now key cooldowns = within now alert_cooldown_ms (get key cooldowns)

unfoldable pub maybe_alert :
    JobConfig → ℕ → String → AlertSeverity → Ratio → JobState → List Notification × JobState
unfolding is_on_cooldown
maybe_alert cfg now loan_id level hf st =
    let key = cooldown_key loan_id level in
    if is_on_cooldown now key st.alert_cooldowns
    then ([], st)
    else let (sent, fired) =
        fire_alert cfg.channels now (health_rule loan_id level)
          ("Loan "
            <> loan_id
            <> " health factor "
            <> cfg.show hf
            <> " dropped below "
            <> level_text level
            <> " threshold")
          st.last_fired in
      (sent, record st { alert_cooldowns = put key now st.alert_cooldowns; last_fired = fired })

-- `a === b` on health factors
abbrev pub same_factor : Option Ratio → Option Ratio → Bool
same_factor none none = true
same_factor (some a) (some b) = (a.num * b.den) == (b.num * a.den)
same_factor _ _ = false

unfoldable pub job_factor : Store → LoanRecord → Option Ratio
job_factor s loan =
    compute_health_factor (value_of (get_collateral loan.collateral_id s)) loan.amount

-- `hf !== null && hf < SCALE ? "at_risk" : "active"`
unfoldable pub job_status : Option Ratio → LoanStatus
job_status none = active
job_status (some r) = if below scale r then at_risk else active

unfoldable pub needs_update : LoanRecord → Option Ratio → LoanStatus → Bool
needs_update loan hf st =
    not (same_factor loan.health_factor hf) || not (holds (same_loan_status st) loan.status)

-- The alert that a health factor calls for.
unfoldable pub job_alert :
    JobConfig → ℕ → String → Option Ratio → JobState → List Notification × JobState
job_alert cfg now loan_id none st = ([], st)
job_alert cfg now loan_id (some hf) st =
    if below cfg.crit_threshold hf
    then maybe_alert cfg now loan_id critical hf st
    else if below cfg.warn_threshold hf
    then maybe_alert cfg now loan_id warning hf st
    else ([], st)

-- The update of one loan: one if it was written, and the store.
unfoldable pub job_update : LoanRecord → Store → ℕ × Store
unfolding job_factor job_status needs_update
job_update loan s =
    let hf = job_factor s loan in
    let st = job_status hf in
    if needs_update loan hf st
    then (
      1,
      (update_loan loan.id (record no_loan_updates { health_factor = some hf; status = some st })
          s).1,
    )
    else (0, s)

unfoldable pub job_loop :
    JobConfig → ℕ → List LoanRecord → JobState → ℕ × List Notification × JobState
job_loop cfg now [] st = (0, [], st)
job_loop cfg now (loan ∷ loans) st =
    let (written, s') = job_update loan st.store in
    let (sent, st') =
      job_alert cfg now loan.id (job_factor st.store loan) (record st { store = s' }) in
    let (updated, later, st'') = job_loop cfg now loans st' in
    (written + updated, sent ++ later, st'')

unfoldable pub run_health_factor_job : JobConfig → ℕ → JobState → ℕ × List Notification × JobState
unfolding job_loop
run_health_factor_job cfg now st = job_loop cfg now (list_active_loans st.store) st
