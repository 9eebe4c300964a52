-- ===== src/Webhooks.antt =====
-- backend/src/webhooks.ts: registration, and the delivery of events with retries. The parse of a URL,
-- the random id and secret, HMAC and `fetch` are arguments; what `fetch` comes back with is a status.
-- A log leaves the payload out.
pub mod Laws
pub mod Fire
use stellar_kraal.Common.{
  ◌<>◌, ltb, leb, str_eq, if◌then◌else◌, is_some, Dict, get, put, remove, values, ℕ, zero, suc, ◌+◌,
  ◌*◌, ◌^◌, ◌<◌, max, String, ap, Bool, false, not, ◌&&◌, Option, none, some, List, [], ◌∷◌, map,
}
use stellar_kraal.Http.{Outcome, resolved, rejected}

pub record WebhookRegistration : Type 0 where
  pub id : String
  pub url : String
  pub secret : String
  pub created_at : ℕ

-- A registration without its secret.
pub record WebhookInfo : Type 0 where
  pub id : String
  pub url : String
  pub created_at : ℕ

pub record DeliveryLog : Type 0 where
  pub webhook_id : String
  pub event : String
  pub attempts : ℕ
  pub last_status : Option ℕ
  pub last_error : Option String
  pub delivered_at : Option ℕ

-- `new URL(url).protocol` is `none` where the constructor throws; the result is the Error's message or
-- the registration.
unfoldable pub register_webhook :
    ℕ
    → String
    → String
    → String
    → Option String
    → Dict WebhookRegistration
    → Outcome WebhookRegistration × Dict WebhookRegistration
register_webhook now id secret url protocol webhooks = elim protocol [
  | none ↦ (rejected "Invalid webhook URL", webhooks)
  | some p ↦
      if not (str_eq p "https:") && not (str_eq p "http:")
      then (rejected "Webhook URL must use http or https", webhooks)
      else let reg : WebhookRegistration = record {
        id = id;
        url = url;
        secret = secret;
        created_at = now;
      } in
        (resolved reg, put id reg webhooks)
]

abbrev pub without_secret : WebhookRegistration → WebhookInfo
without_secret w = record { id = w.id; url = w.url; created_at = w.created_at }

unfoldable pub get_webhooks : Dict WebhookRegistration → List WebhookInfo
get_webhooks webhooks = map without_secret (values webhooks)

unfoldable pub delete_webhook : String → Dict WebhookRegistration → Bool × Dict WebhookRegistration
delete_webhook id webhooks = (is_some (get id webhooks), remove id webhooks)

abbrev pub sign : (String → String → String) → String → String → String
sign hmac payload secret = "sha256=" <> hmac secret payload

abbrev pub max_attempts : ℕ
max_attempts = 5

-- `res.ok`
abbrev pub is_ok : ℕ → Bool
is_ok status = leb 200 status && ltb status 300

abbrev pub is_delivered : Outcome ℕ → Bool
is_delivered (resolved status) = is_ok status
is_delivered (rejected e) = false

-- What an attempt writes to the log; `show` prints a status.
unfoldable pub log_attempt : (ℕ → String) → ℕ → ℕ → Outcome ℕ → DeliveryLog → DeliveryLog
log_attempt show now attempt (resolved status) log =
    if is_ok status
    then record log { attempts = suc attempt; last_status = some status; delivered_at = some now }
    else record log {
      attempts = suc attempt;
      last_status = some status;
      last_error = some ("HTTP " <> show status);
    }
log_attempt show now attempt (rejected e) log = record log {
  attempts = suc attempt;
  last_status = none;
  last_error = some e;
}

-- `deliver` from an attempt on, with `left` rounds: the final log, and the delays waited. `fetch` and
-- `clock` give what the call of each attempt comes back with, and when.
unfoldable pub deliver_from :
    ℕ → ℕ → (ℕ → String) → (ℕ → Outcome ℕ) → (ℕ → ℕ) → DeliveryLog → DeliveryLog × List ℕ
unfolding log_attempt
deliver_from zero attempt show fetch clock log = (log, [])
deliver_from (suc left) attempt show fetch clock log =
    let log' = log_attempt show (clock attempt) attempt (fetch attempt) log in
    let rest = deliver_from left (suc attempt) show fetch clock log' in
    if is_delivered (fetch attempt)
    then (log', [])
    else if ltb (attempt + 1) max_attempts
    then (rest.0, (2 ^ attempt * 1000) ∷ rest.1)
    else (log', [])

-- The log that `fireWebhooks` begins a delivery with.
abbrev pub new_log : String → String → DeliveryLog
new_log id event = record {
  webhook_id = id;
  event = event;
  attempts = 0;
  last_status = none;
  last_error = none;
  delivered_at = none;
}

unfoldable pub deliver :
    (ℕ → String) → (ℕ → Outcome ℕ) → (ℕ → ℕ) → DeliveryLog → DeliveryLog × List ℕ
unfolding deliver_from
deliver show fetch clock log = deliver_from max_attempts 0 show fetch clock log
