-- ===== src/Webhooks/Fire.antt =====
-- backend/src/webhooks.ts: fireWebhooks, and the encryption of a payload. `stringify` is the text of
-- `{ event, payload, timestamp }`; a delivery that is begun runs by itself, as `deliver` says.
use stellar_kraal.Common.{
  Dict, values, ℕ, String, ◌≡◌, Option, some, List, [], ◌∷◌, ◌++◌, map, append-nil,
}
use mathlib.Core.List.{append_assoc}
use stellar_kraal.Webhooks.{WebhookRegistration, DeliveryLog, new_log, sign}

-- The arguments of a call of `deliver`; its log is the one that was pushed with it.
pub record Delivery : Type 0 where
  pub url : String
  pub body : String
  pub signature : String

-- The call of `deliver` for a registration.
abbrev pub delivery_to : (String → String → String) → String → WebhookRegistration → Delivery
delivery_to hmac body wh = record {
  url = wh.url;
  body = body;
  signature = sign hmac body wh.secret;
}

-- The loop: the logs, and the deliveries in the order they begin.
unfoldable pub fire_all :
    (String → String → String)
    → String
    → String
    → List WebhookRegistration
    → List DeliveryLog
    → List DeliveryLog × List Delivery
fire_all hmac event body [] logs = (logs, [])
fire_all hmac event body (wh ∷ rest) logs =
    let next = fire_all hmac event body rest (logs ++ (new_log wh.id event ∷ [])) in
    (next.0, delivery_to hmac body wh ∷ next.1)

unfoldable pub fire_webhooks :
    {P : Type 0}
    → (String → P → ℕ → String)
    → (String → String → String)
    → ℕ
    → String
    → P
    → Dict WebhookRegistration
    → List DeliveryLog
    → List DeliveryLog × List Delivery
fire_webhooks stringify hmac now event payload webhooks logs =
    fire_all hmac event (stringify event payload now) (values webhooks) logs

-- Node's crypto: HKDF with the salt and the information of the source, hex, and AES-256-GCM. `open_with`
-- is `none` where `decipher.final` throws.
pub record Cipher (Bytes : Type 0) : Type 0 where
  pub hkdf : String → String → Bytes
  pub to_hex : Bytes → String
  pub of_hex : String → Bytes
  pub seal : Bytes → Bytes → String → Bytes × Bytes
  pub open_with : Bytes → Bytes → Bytes → Bytes → Option String

pub record Encrypted : Type 0 where
  pub iv : String
  pub encrypted_payload : String
  pub auth_tag : String

module _ {Bytes : Type 0} where
  abbrev pub derive_encryption_key : Cipher Bytes → String → Bytes
  derive_encryption_key c secret = c.hkdf secret "stellarkraal-webhook-encryption"

  -- `iv` is the twelve random bytes.
  unfoldable pub encrypt_payload : Cipher Bytes → Bytes → String → Bytes → Encrypted
  encrypt_payload c iv plaintext key = record {
    iv = c.to_hex iv;
    encrypted_payload = c.to_hex ((c.seal key iv plaintext).0);
    auth_tag = c.to_hex ((c.seal key iv plaintext).1);
  }

  unfoldable pub decrypt_payload : Cipher Bytes → String → String → String → Bytes → Option String
  decrypt_payload c iv encrypted_payload auth_tag key =
      c.open_with key (c.of_hex iv) (c.of_hex auth_tag) (c.of_hex encrypted_payload)

  -- What was encrypted under the key of a secret is read back under the key of that secret, given that
  -- hex is read back and that the cipher opens what it sealed.
  pub decrypt_payload-encrypt_payload :
      (c : Cipher Bytes) (iv : Bytes) (plaintext secret : String)
      → ((b : Bytes) → c.of_hex (c.to_hex b) ≡ b)
      → ((key iv : Bytes) (text : String)
          → c.open_with key iv ((c.seal key iv text).1) ((c.seal key iv text).0) ≡ some text)
      → let key = derive_encryption_key c secret in
        let sent = encrypt_payload c iv plaintext key in
        decrypt_payload c sent.iv sent.encrypted_payload sent.auth_tag key ≡ some plaintext
  unfolding encrypt_payload decrypt_payload
  decrypt_payload-encrypt_payload c iv plaintext secret hex opens =
      let key = derive_encryption_key c secret in
      let sealed = c.seal key iv plaintext in
      rw (decrypt_payload, hex iv, hex (sealed.1), hex (sealed.0)) (opens key iv plaintext)

-- Each registered webhook is begun a log and a delivery, once and in the order of the registrations,
-- under its own secret, behind the logs there were.
pub fire_all_lem :
    (hmac : String → String → String) (event body : String) (whs : List WebhookRegistration)
    (logs : List DeliveryLog)
    → fire_all hmac event body whs logs
      ≡ (logs ++ (map (λ wh. new_log wh.id event) whs), map (delivery_to hmac body) whs)
unfolding fire_all
fire_all_lem hmac event body [] logs = rw (append-nil logs)
fire_all_lem hmac event body (wh ∷ rest) logs = rw (
  fire_all_lem hmac event body rest (logs ++ (new_log wh.id event ∷ [])),
  append_assoc logs (new_log wh.id event ∷ []) (map (λ w. new_log w.id event) rest),
)
