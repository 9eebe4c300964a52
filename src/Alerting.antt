-- ===== src/Alerting.antt =====
-- backend/src/utils/alerting.ts and alertRules.ts: alerts with a cooldown for each rule. What is
-- sent to Slack and PagerDuty is the result of the call; a failed delivery is only logged.
pub mod Laws
use stellar_kraal.Common.{
  ltb, if◌then◌else◌, Dict, get, put, ℕ, zero, suc, ◌+◌, ◌-◌, String, Bool, true, false, not, ◌||◌,
  Option, none, some, List, [], ◌∷◌, ◌++◌,
}

pub data AlertSeverity : Type 0 where
  warning critical : AlertSeverity

pub record AlertRule : Type 0 where
  pub id : String
  pub name : String
  pub severity : AlertSeverity
  pub cooldown_ms : ℕ
  pub runbook : String
  pub pagerduty : Bool

-- Which of the two channels the environment configures.
pub record Channels : Type 0 where
  pub slack : Bool
  pub pagerduty : Bool

pub data Notification : Type 0 where
  to_slack : AlertRule → String → Notification
  to_pagerduty : AlertRule → String → Notification

-- `lastFired`: the time at which a rule id last fired.
abbrev pub LastFired : Type 0
LastFired = Dict ℕ

-- `last !== undefined && Date.now() - last < cooldown`; a clock that was set back still cools down,
-- as 0 is below every cooldown of the rules.
abbrev pub within : ℕ → ℕ → Option ℕ → Bool
within now cooldown none = false
within now cooldown (some last) = ltb (now - last) cooldown

unfoldable pub is_cooling_down : ℕ → AlertRule → LastFired → Bool
is_cooling_down now rule fired = within now rule.cooldown_ms (get rule.id fired)

abbrev pub send_slack : Channels → AlertRule → String → List Notification
send_slack ch rule message = if ch.slack then to_slack rule message ∷ [] else []

abbrev pub send_pagerduty : Channels → AlertRule → String → List Notification
send_pagerduty ch rule message =
    if not ch.pagerduty || not rule.pagerduty then [] else to_pagerduty rule message ∷ []

unfoldable pub fire_alert :
    Channels → ℕ → AlertRule → String → LastFired → List Notification × LastFired
unfolding is_cooling_down
fire_alert ch now rule message fired =
    if is_cooling_down now rule fired
    then ([], fired)
    else (send_slack ch rule message ++ send_pagerduty ch rule message, put rule.id now fired)

abbrev pub rpc_failure : AlertRule
rpc_failure = record {
  id = "rpc-failure";
  name = "RPC Failure";
  severity = critical;
  cooldown_ms = 300000;
  runbook = "rpc-failure.md";
  pagerduty = false;
}

abbrev pub rpc_circuit_open : AlertRule
rpc_circuit_open = record {
  id = "rpc-circuit-open";
  name = "RPC Circuit Breaker Opened";
  severity = critical;
  cooldown_ms = 600000;
  runbook = "rpc-failure.md";
  pagerduty = false;
}

abbrev pub db_error : AlertRule
db_error = record {
  id = "db-error";
  name = "Database Error";
  severity = critical;
  cooldown_ms = 300000;
  runbook = "db-error.md";
  pagerduty = false;
}

abbrev pub liquidation_failure : AlertRule
liquidation_failure = record {
  id = "liquidation-failure";
  name = "Liquidation Engine Failure";
  severity = critical;
  cooldown_ms = 120000;
  runbook = "liquidation-failure.md";
  pagerduty = false;
}

abbrev pub fivexx_spike : AlertRule
fivexx_spike = record {
  id = "5xx-spike";
  name = "5xx Error Spike";
  severity = critical;
  cooldown_ms = 60000;
  runbook = "5xx-spike.md";
  pagerduty = true;
}

abbrev pub backup_failure : AlertRule
backup_failure = record {
  id = "backup-failure";
  name = "Database Backup Failed";
  severity = critical;
  cooldown_ms = 3600000;
  runbook = "restore-procedure.md";
  pagerduty = true;
}
