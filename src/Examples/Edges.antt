-- ===== src/Examples/Edges.antt =====
-- The theorems on the configuration, on checks of requests, on timers and on the forms of the browser at
-- concrete inputs.
use stellar_kraal.Common.{
  ◌<>◌, ltb, ◌==◌, str_eq, if◌then◌else◌, Bool-cases, is_some, Dict, get, ℕ, ◌+◌, ◌*◌, ◌/◌, ◌≤◌,
  String, ◌≡◌, refl, ◌⊎◌, inr, Bool, true, false, Option, none, some, List, [], ◌∷◌, ◌++◌, arith,
}
use stellar_kraal.Http.{resolved, rejected, reply, refuse}
use stellar_kraal.Webhooks.{WebhookRegistration}
use stellar_kraal.Webhooks.Fire.{delivery_to, fire_webhooks}
use stellar_kraal.Routes.Webhooks.{
  create_webhook_route, delete_webhook_route, registered, create_webhook_route-delete_webhook_route,
}
use stellar_kraal.Cors.{parse_allowed_origins}
use stellar_kraal.Alerting.{Channels}
use stellar_kraal.Pool.{new_pool, fill, acquire}
use stellar_kraal.Pool.Invariant.{new_pool-IsValid}
use stellar_kraal.RpcClient
use stellar_kraal.RpcClient.{
  Breaker, Client, RpcCall, Turn, calls, ends_late, take_turn, rpc_method, get_account, fire,
}
use stellar_kraal.RpcClient.Laws.{IsAccounted, IsAnswer, run-fire}
use stellar_kraal.Startup.{
  refine_allowed_origins, is_resolved, refine_allowed_origins-parse_allowed_origins,
}
use stellar_kraal.Server.Timeout.{
  answers, runs_out, new_exchange, timeout_middleware, run, or_timeout, run-runs_out,
}
use stellar_kraal.Frontend.Wizard
use stellar_kraal.Frontend.Wizard.{
  Action, sets, amount_nexts, nexts, field_count, field_appraised_value, field_loan_amount,
  first_render, mount,
}
use stellar_kraal.Frontend.Wizard.Laws.{run-mount}
use stellar_kraal.Validate.{
  ZodIssue, ValidateOptions, Parsed, failure, dictionary, answered, details, validate, status_of,
  messages_for, entry_of, to_validation_messages_by_field, validate-dictionary,
}
use stellar_kraal.Frontend.Forms.{Num, nan, whole}
use stellar_kraal.Frontend.Registration.{
  handle_submit, Texts, FormData, Page, file, no_errors, form_errors, register_body, validate_breed,
  validate_age, validate_image, validate_quantity, validate_weight, validate_location,
  validate_value,
}
use stellar_kraal.Frontend.Registration.Laws.{is_fraction, IsPositive, handle_submit-register_body}

abbrev stringify : String → ℕ → ℕ → String
stringify event payload now = event <> "!"

abbrev hmac : String → String → String
hmac secret body = secret <> ":" <> body

abbrev hook : WebhookRegistration
hook = record { id = "w1"; url = "https://a.org/in"; secret = "s1"; created_at = 3 }

abbrev hooks : Dict WebhookRegistration
hooks = ("w1", hook) ∷ []

abbrev https : String → Option String
https url = some "https:"

create_webhook_route-delete_webhook_route_example :
    let made = create_webhook_route 5 "w2" "s2" https (some "https://b.org") hooks in
    let fired = λ (whs : Dict WebhookRegistration).
      (fire_webhooks stringify hmac 9 "loan.repaid" 40 whs []).1 in
    ((message : String) × (made ≡ (refuse 400 message, hooks)))
    ⊎ ((url : String) × (some "https://b.org" ≡ some url)
        × (made.0 ≡ reply 201 (registered 5 "w2" "s2" url))
        × (fired (made.1)
            ≡ fired hooks
              ++ (delivery_to hmac (stringify "loan.repaid" 40 9) (registered 5 "w2" "s2" url)
                  ∷ []))
        × (delete_webhook_route "w2" (made.1) ≡ (reply 204 tt, hooks)))
unfolding get
create_webhook_route-delete_webhook_route_example =
    create_webhook_route-delete_webhook_route stringify hmac 5 9 "w2" "s2" "loan.repaid" 40 https
      (some "https://b.org") hooks [] refl

abbrev is_url : String → Bool
is_url o = str_eq o "https://kraal.org"

refine_allowed_origins-parse_allowed_origins_example :
    refine_allowed_origins is_url true (some ("https://kraal.org" ∷ "*" ∷ []))
    ≡ is_resolved (parse_allowed_origins is_url true (some ("https://kraal.org" ∷ "*" ∷ [])))
refine_allowed_origins-parse_allowed_origins_example =
    refine_allowed_origins-parse_allowed_origins is_url true (some ("https://kraal.org" ∷ "*" ∷ []))

-- The route's own timer is the first of the two.
run-runs_out_example :
    let start = timeout_middleware 15000 false (timeout_middleware 30000 false new_exchange) in
    (run ([] ++ (runs_out 15000 ∷ answers 200 ∷ [])) start).sent
    ≡ some (or_timeout (run [] start).sent)
run-runs_out_example = run-runs_out 30000 15000 15000 [] (answers 200 ∷ []) (inr refl) refl

abbrev parse : String → Option ℕ
parse t = if str_eq t "10" then some 10 else if str_eq t "6" then some 6 else none

abbrev seventy : ℕ → ℕ
seventy v = v * 7 / 10

abbrev show : Option ℕ → String
show n = "the maximum"

abbrev clicks : List Action
clicks =
    sets (field_count "6")
    ∷ sets (field_appraised_value "10")
    ∷ nexts
    ∷ sets (field_loan_amount "6")
    ∷ amount_nexts
    ∷ []

run-mount_example :
    let p = Wizard.run parse seventy show clicks (mount (first_render none)) in
    (1 ≤ p.state.step) × (p.state.step ≤ 4) × ((mount (first_render p.storage)).state ≡ p.state)
run-mount_example = run-mount parse seventy show clicks none tt

-- A breaker that opens at the first failure, for a minute.
abbrev breaker : Breaker (Option ℕ)
breaker = record {
  opened = is_some;
  admits = λ now st. elim st [ none ↦ true | some at ↦ ltb (at + 60000) now ];
  settles = λ now good st. if good then none else some now;
  open_error = "open";
  timeout_error = "timed out";
}

abbrev client : Client (Option ℕ)
client = record {
  state_of = λ m. none;
  pool = new_pool 1 2;
  running = [];
  last_fired = [];
  sent = [];
}

abbrev ask : Bool → ℕ → RpcCall ℕ
ask late now = record {
  method = get_account;
  answers = λ server attempt. if server == 0 then rejected "down" else resolved attempt;
  is_late = late;
  begins = now;
  ends = now + 3000;
}

abbrev slack : Channels
slack = record { slack = true; pagerduty = false }

client-IsAccounted : IsAccounted client
unfolding new_pool fill
client-IsAccounted = record { valid = new_pool-IsValid 1 2 (omega arith); lends = refl }

abbrev turns : List (Turn ℕ)
turns = calls (ask true 1000) ∷ ends_late 0 ∷ calls (ask true 70000) ∷ []

run-fire_example :
    let c' = RpcClient.run breaker slack turns client in
    IsAnswer breaker slack (ask false 140000) c' (fire breaker slack (ask false 140000) c')
    × IsAccounted (fire breaker slack (ask false 140000) c').1
run-fire_example = run-fire breaker slack turns (ask false 140000) client client-IsAccounted

-- Two late calls that go on have both servers, and a call in time finds none.
late_calls_exhaust :
    (fire breaker slack
      (ask false 140000)
      (RpcClient.run breaker slack (calls (ask true 1000) ∷ calls (ask true 70000) ∷ []) client)).0
    ≡ rejected "Connection pool exhausted"
unfolding new_pool fill take_turn fire rpc_method acquire
late_calls_exhaust = refl

abbrev issues : List ZodIssue
issues =
    record { path = some "count"; message = "must be positive" }
    ∷ record { path = some "owner"; message = "Required" }
    ∷ record { path = some "count"; message = "must be whole" }
    ∷ []

abbrev refuses : String → Parsed ℕ
refuses body = failure issues

validate-dictionary_example :
    (let o : ValidateOptions = record { status_code = none; error_shape = some dictionary } in
      validate refuses o "{}"
      ≡ answered (status_of o) (details (to_validation_messages_by_field issues)))
    × ((f : String)
        → get f (to_validation_messages_by_field issues) ≡ entry_of (messages_for f issues))
validate-dictionary_example = validate-dictionary refuses none "{}" issues refl

abbrev three : String → Num
three v = if str_eq v "3" then whole 3 else nan

abbrev texts : Texts
texts = record { trim = λ v. v; length_of = λ v. 4; parse_int = three; parse_float = three }

abbrev filled_in : FormData
filled_in = record {
  animal_type = "goat";
  quantity = "3";
  weight = "3";
  health_status = "good";
  location = "Nyeri";
  appraised_value = "3";
  breed = "Boer";
  age = "3";
  image = file "image/png" 2048;
}

abbrev page : Page
page = record {
  form = filled_in;
  errors = no_errors;
  loading = false;
  show_confirm = false;
  show_restore_prompt = false;
  draft = none;
  toasts = [];
  status = none;
}

three-is_fraction : (v : String) → is_fraction (texts.parse_int v) ≡ false
three-is_fraction v = ground (arith, Bool-cases (str_eq v "3"))

handle_submit-register_body_example :
    let body = register_body texts "GA" page.form in
    (form_errors texts page.form ≡ no_errors)
    × IsPositive body.count
    × IsPositive body.appraised_value
unfolding handle_submit validate_breed validate_age validate_image validate_quantity validate_weight
    validate_location validate_value
handle_submit-register_body_example =
    handle_submit-register_body texts "GA" page three-is_fraction refl refl
