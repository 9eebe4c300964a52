-- ===== src/Examples/Jobs.antt =====
-- The theorems on the listener, the jobs, the audit log and the server at concrete inputs.
use stellar_kraal.Common.{
  ◌==◌, str_eq, if◌then◌else◌, str_eq_iff, length, filter_by, any_by, get, ℕ, ◌+◌, ◌≤◌, String, ◌≡◌,
  refl, ◌≢◌, ◌⊎◌, true, false, Option, none, some, List, [], ◌∷◌, ◌++◌, arith,
}
use stellar_kraal.Http.{resolved, rejected}
use stellar_kraal.Alerting.{Channels}
use stellar_kraal.Pool.{ConnectionPool, stats, release, close}
use stellar_kraal.Listener.{Sdk, Event}
use stellar_kraal.Listener.Owners.{HasExclusiveArms}
use stellar_kraal.Listener.Cursor.{
  Listener, poll_request, start_ledger, poll_finish, poll_finish-poll_request,
}
use stellar_kraal.Listener.Timers.{
  Timers, idle, started, polled, start_event_listener, stop_event_listener, tick_end,
  Reach-stop_event_listener,
}
use stellar_kraal.Reminder.{
  LoanSummary, Reminders, send_reminder_email, already_sent_today, is_endangered,
  run_repayment_reminder_job,
}
use stellar_kraal.Reminder.Laws.{
  Transport, times_mailed, as_number, run_day, run_repayment_reminder_job-once,
  run_repayment_reminder_job-reminds,
}
use stellar_kraal.Audit.{Json, object, field, no_fields, text, redact}
use stellar_kraal.Audit.Laws.{IsClean, redact-IsClean}
use stellar_kraal.Server.{Monitor, Thrown, other_error, app_error, pool_exhausted}
use stellar_kraal.Server.Window.{in_window, handle_errors, counted, latest, handle_errors_lem}
use stellar_kraal.Server.Shutdown.{
  Process, Happening, Target, is_before, serving, exited, signal, check_interval, check_in_use,
  happen, gives_back, force_shutdown, admits, graceful_shutdown, is_exited, run, IsOrderly,
  graceful_shutdown-refuses, graceful_shutdown-exits,
}
use stellar_kraal.Examples.Data.{herd}

-- Values of the contract: a symbol, an address, a number, or a list of those as a pair of numbers.
data Val : Type 0 where
  symbol_val address_val : String → Val
  number_val : ℕ → Val
  liquidation_val : Val

abbrev as_symbol : Val → Option String
as_symbol (symbol_val s) = some s
as_symbol _ = none

abbrev as_address : Val → Option String
as_address (address_val s) = some s
as_address _ = none

abbrev as_number_of : Val → Option ℕ
as_number_of (number_val n) = some n
as_number_of _ = none

abbrev as_vec : Val → Option (Option (List Val))
as_vec liquidation_val = some (some (number_val 1 ∷ number_val 50 ∷ number_val 60 ∷ []))
as_vec _ = some none

abbrev as_id : Val → Option String
as_id (number_val n) = some "l1"
as_id _ = none

abbrev decode : String → Option Val
decode t =
    if str_eq t "data"
    then some liquidation_val
    else if str_eq t "GA"
    then some (address_val "GA")
    else some (symbol_val t)

abbrev sdk : Sdk Val
sdk = record {
  from_xdr = decode;
  symbol = as_symbol;
  vec = as_vec;
  u64 = as_id;
  u32 = as_number_of;
  i128_lo = as_number_of;
  address = as_address;
}

abbrev liquidated_event : Event
liquidated_event = record {
  type = "contract";
  topic = "loan" ∷ "liquidated" ∷ [];
  value = "data";
  ledger = 8;
}

sdk-HasExclusiveArms : HasExclusiveArms sdk
sdk-HasExclusiveArms (symbol_val s) t e = refl
sdk-HasExclusiveArms (address_val s) t e = cc
sdk-HasExclusiveArms (number_val n) t e = refl
sdk-HasExclusiveArms liquidation_val t e = refl

abbrev listening : Listener
listening = record { store = herd; last_ledger = 7 }

abbrev contract : String
contract = "CA"

contract_named : contract ≢ ""
contract_named e = ground (arith, (str_eq_iff contract "").1 e)

poll_finish-poll_request_example :
    let l' = poll_finish sdk 9 (resolved (liquidated_event ∷ [])) listening in
    (((8 ≤ l'.last_ledger) × (poll_request "CA" l' ≡ some (start_ledger (l'.last_ledger + 1) "CA")))
      × Unit {0})
    × ((l'.last_ledger ≡ 7)
        ⊎ (any_by (λ e. e.ledger == l'.last_ledger) (liquidated_event ∷ []) ≡ true))
    × (7 ≤ l'.last_ledger)
    × (poll_finish sdk 9 (rejected "timeout") listening ≡ listening)
poll_finish-poll_request_example =
    poll_finish-poll_request sdk 9 contract (liquidated_event ∷ []) "timeout" listening
      contract_named (omega arith, tt)

abbrev once_polled : Timers
once_polled = tick_end (start_event_listener "CA" idle)

Reach-stop_event_listener_example :
    let t' = stop_event_listener once_polled in
    (length once_polled.armed + once_polled.polling ≡ 1)
    × (length t'.armed + t'.polling ≡ once_polled.polling)
    × (any_by (λ h. h == t'.next) (tick_end t').armed ≡ true)
Reach-stop_event_listener_example = Reach-stop_event_listener once_polled (
    polled (start_event_listener "CA" idle) (started "CA" contract_named)
      (unfold start_event_listener in omega arith))

abbrev due_loan : LoanSummary
due_loan = record {
  id = "l1";
  borrower = "GA";
  health_factor = some 11000;
  amount = 900;
  status = "at_risk";
}

abbrev no_reminders : Reminders
no_reminders = record { last_reminder_date = []; mailed = [] }

abbrev broken : Transport
broken = some (λ loan. rejected "SMTP")

abbrev two_runs : List (Transport × List LoanSummary)
two_runs = (broken, due_loan ∷ []) ∷ (none, due_loan ∷ due_loan ∷ []) ∷ []

run_repayment_reminder_job-once_example :
    let r' = run_day "2026-01-05" two_runs no_reminders in
    times_mailed "l1" r'.mailed ≡ as_number (already_sent_today "l1" "2026-01-05" r')
run_repayment_reminder_job-once_example =
    run_repayment_reminder_job-once "2026-01-05" "l1" two_runs no_reminders refl
      (unfold already_sent_today get in refl)

run_repayment_reminder_job-reminds_example :
    let (sent, r') =
      run_repayment_reminder_job "2026-01-05" none ([] ++ due_loan ∷ due_loan ∷ []) no_reminders in
    (already_sent_today "l1" "2026-01-05" r' ≡ true) × (sent + 0 ≡ length r'.mailed)
run_repayment_reminder_job-reminds_example =
    run_repayment_reminder_job-reminds "2026-01-05" none [] (due_loan ∷ []) due_loan no_reminders
      (unfold is_endangered in refl) (unfold send_reminder_email in refl)

abbrev same_text : String → String
same_text s = s

abbrev login_body : Json
login_body = object (field "user" (object (field "password" (text "hunter2") no_fields)) no_fields)

redact-IsClean_example : IsClean same_text (redact same_text same_text login_body 0) 0
redact-IsClean_example = redact-IsClean same_text same_text login_body

abbrev show_any : ℕ → String
show_any n = "12"

abbrev no_channels : Channels
no_channels = record { slack = false; pagerduty = false }

abbrev calm : Monitor
calm = record { fivexx_timestamps = []; last_fired = [] }

abbrev three_errors : List (ℕ × Thrown)
three_errors =
    (100, app_error 404 "Loan not found" "NOT_FOUND")
    ∷ (200, pool_exhausted)
    ∷ (70000, other_error "boom")
    ∷ []

handle_errors_lem_example :
    (handle_errors show_any no_channels three_errors calm).fivexx_timestamps
    ≡ filter_by (in_window (latest 0 (counted three_errors))) (counted three_errors)
handle_errors_lem_example =
    handle_errors_lem show_any no_channels three_errors calm refl ((omega arith, tt), (tt, tt))

abbrev busy_pool : ConnectionPool
busy_pool = record { pool = []; in_use = 1 ∷ []; min_size = 1; max_size = 2; next_server = 2 }

abbrev up : Process
up = record { phase = serving; pool = busy_pool; health_job_runs = true; force_timer = none }

abbrev in_flight : List Happening
in_flight = check_interval ∷ signal 200 ∷ gives_back 1 ∷ []

graceful_shutdown-refuses_example :
    let q = run 30000 in_flight (graceful_shutdown 30000 100 up) in
    ((r : Target) → (admits r up ≡ true) × (admits r q ≡ is_before r))
    × IsOrderly 30000 (100 + 30000) check_interval q (happen 30000 check_interval q)
graceful_shutdown-refuses_example =
    graceful_shutdown-refuses 30000 100 in_flight check_interval up refl

graceful_shutdown-exits_example :
    is_exited
      (run 30000
        (check_interval ∷ [] ++ force_shutdown 30100 ∷ signal 30200 ∷ [])
        (graceful_shutdown 30000 100 up)).phase
    ≡ true
graceful_shutdown-exits_example =
    graceful_shutdown-exits 30000 100 30100 (check_interval ∷ []) (signal 30200 ∷ []) up refl
      (omega arith)

-- The server in use keeps the process, until it comes back.
waits_for_the_server :
    let q = run 30000 (check_interval ∷ []) (graceful_shutdown 30000 100 up) in
    let r = run 30000 (gives_back 1 ∷ check_interval ∷ []) q in
    (is_exited q.phase ≡ false) × (r.phase ≡ exited 0)
unfolding happen graceful_shutdown check_in_use stats release close
waits_for_the_server = (refl, refl)
