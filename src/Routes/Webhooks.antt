-- ===== src/Routes/Webhooks.antt =====
-- POST /api/webhooks of backend/src/index.ts and DELETE /webhooks/:id of backend/src/routes/v1.ts. The
-- random id and secret, the clock and the parse of a URL are arguments.
use stellar_kraal.Common.{
  str_eq, if◌then◌else◌, str_eq_iff, Bool-cases, Option-cases, Dict, get, put, remove, values,
  get-put_self, ℕ, String, ◌≡◌, refl, ap, ◌⊎◌, inl, inr, not, ◌&&◌, Option, none, some, List, [],
  ◌∷◌, ◌++◌, map, arith,
}
use stellar_kraal.Http.{resolved, rejected, Reply, reply, refuse}
use stellar_kraal.Store.Paging.{truthy}
use stellar_kraal.Webhooks.{WebhookRegistration, DeliveryLog, register_webhook, delete_webhook}
use stellar_kraal.Webhooks.Fire.{delivery_to, fire_all_lem, fire_webhooks}

-- `req.body.url` is `none` if it is missing or no string; `protocol_of` is `none` where `new URL` throws.
unfoldable pub create_webhook_route :
    ℕ
    → String
    → String
    → (String → Option String)
    → Option String
    → Dict WebhookRegistration
    → Reply WebhookRegistration × Dict WebhookRegistration
unfolding register_webhook
create_webhook_route now id secret protocol_of body_url webhooks = elim (truthy body_url) [
  | none ↦ (refuse 400 "url is required", webhooks)
  | some url ↦
      let made = register_webhook now id secret url (protocol_of url) webhooks in
      elim (made.0) [
        | resolved reg ↦ (reply 201 reg, made.1)
        | rejected message ↦ (refuse 400 message, made.1)
      ]
]

unfoldable pub delete_webhook_route :
    String → Dict WebhookRegistration → Reply (Unit {0}) × Dict WebhookRegistration
unfolding delete_webhook
delete_webhook_route id webhooks =
    let deleted = delete_webhook id webhooks in
    if not (deleted.0)
    then (refuse 404 "Webhook not found", deleted.1)
    else (reply 204 tt, deleted.1)

module _ {V : Type 0} where
  remove-put_new : (k : String) (v : V) (m : Dict V) → get k m ≡ none → remove k (put k v m) ≡ m
  unfolding get put remove
  remove-put_new k v [] e = ground (arith, str_eq_iff k k)
  remove-put_new k v ((j, w) ∷ m) e =
      ground (arith, e, Bool-cases (str_eq j k), remove-put_new k v m)

  values-put_new :
      (k : String) (v : V) (m : Dict V) → get k m ≡ none → values (put k v m) ≡ values m ++ (v ∷ [])
  unfolding get put values
  values-put_new k v [] e = refl
  values-put_new k v ((j, w) ∷ m) e =
      ground (arith, e, Bool-cases (str_eq j k), values-put_new k v m)

-- What `crypto` and the clock give a registration.
abbrev pub registered : ℕ → String → String → String → WebhookRegistration
registered now id secret url = record { id = id; url = url; secret = secret; created_at = now }

-- A request is refused with 400 and nothing is stored, or its URL is stored under the new id.
create_webhook_route-cases :
    (now : ℕ) (id secret : String) (protocol_of : String → Option String) (body_url : Option String)
    (webhooks : Dict WebhookRegistration)
    → ((message : String) × (create_webhook_route now id secret protocol_of body_url webhooks
          ≡ (refuse 400 message, webhooks)))
      ⊎ ((url : String) × (body_url ≡ some url)
          × (create_webhook_route now id secret protocol_of body_url webhooks ≡ (
            reply 201 (registered now id secret url),
            put id (registered now id secret url) webhooks,
          )))
unfolding create_webhook_route
create_webhook_route-cases now id secret protocol_of none webhooks = inl ("url is required", refl)
create_webhook_route-cases now id secret protocol_of (some url) webhooks =
    elim (Bool-cases (str_eq url "")) [
      | inl e ↦ inl ("url is required", ground (arith, e))
      | inr ne ↦ elim (Option-cases (protocol_of url)) [
        | inl e ↦ inl ("Invalid webhook URL", ground (arith, e, ne))
        | inr (p, e) ↦ elim (Bool-cases (not (str_eq p "https:") && not (str_eq p "http:"))) [
          | inl bad ↦ inl ("Webhook URL must use http or https", ground (arith, e, ne, bad))
          | inr good ↦ inr (url, refl, ground (arith, e, ne, good))
        ]
      ]
    ]

delete_webhook_route-put :
    (id : String) (reg : WebhookRegistration) (webhooks : Dict WebhookRegistration)
    → get id webhooks ≡ none
    → delete_webhook_route id (put id reg webhooks) ≡ (reply 204 tt, webhooks)
unfolding delete_webhook_route delete_webhook
delete_webhook_route-put id reg webhooks new =
    rw (get-put_self id reg webhooks) (rw (remove-put_new id reg webhooks new) refl)

map-append : {A B : Type 0} (f : A → B) (xs ys : List A) → map f (xs ++ ys) ≡ map f xs ++ map f ys
map-append f [] ys = refl
map-append f (x ∷ xs) ys = rw (map-append f xs ys)

fire_webhooks-put :
    {P : Type 0} (stringify : String → P → ℕ → String) (hmac : String → String → String) (now : ℕ)
    (event : String) (payload : P) (id : String) (reg : WebhookRegistration)
    (webhooks : Dict WebhookRegistration) (logs : List DeliveryLog)
    → get id webhooks ≡ none
    → (fire_webhooks stringify hmac now event payload (put id reg webhooks) logs).1
      ≡ (fire_webhooks stringify hmac now event payload webhooks logs).1
        ++ (delivery_to hmac (stringify event payload now) reg ∷ [])
unfolding fire_webhooks
fire_webhooks-put stringify hmac now event payload id reg webhooks logs new =
    let body = stringify event payload now in
    rw
      (
        fire_all_lem hmac event body (values (put id reg webhooks)) logs,
        fire_all_lem hmac event body (values webhooks) logs,
        values-put_new id reg webhooks new,
      )
      (map-append (delivery_to hmac body) (values webhooks) (reg ∷ []))

-- A registration under an id that is not in use either answers 400 and stores nothing, or answers 201
-- with the URL of the body and the new secret. In the second case an event goes out to the webhooks
-- there were and then once to the new one, signed with the secret that was answered, and deleting the
-- id answers 204 and leaves the webhooks there were.
pub create_webhook_route-delete_webhook_route :
    {P : Type 0} (stringify : String → P → ℕ → String) (hmac : String → String → String)
    (now later : ℕ) (id secret event : String) (payload : P) (protocol_of : String → Option String)
    (body_url : Option String) (webhooks : Dict WebhookRegistration) (logs : List DeliveryLog)
    → get id webhooks ≡ none
    → let made = create_webhook_route now id secret protocol_of body_url webhooks in
      let fired = λ (whs : Dict WebhookRegistration).
        (fire_webhooks stringify hmac later event payload whs logs).1 in
      ((message : String) × (made ≡ (refuse 400 message, webhooks)))
      ⊎ ((url : String) × (body_url ≡ some url)
          × (made.0 ≡ reply 201 (registered now id secret url))
          × (fired (made.1)
              ≡ fired webhooks
                ++ (delivery_to hmac (stringify event payload later) (registered now id secret url)
                    ∷ []))
          × (delete_webhook_route id (made.1) ≡ (reply 204 tt, webhooks)))
create_webhook_route-delete_webhook_route stringify hmac now later id secret event payload
      protocol_of body_url webhooks logs new =
    elim (create_webhook_route-cases now id secret protocol_of body_url webhooks) [
      | inl refused ↦ inl refused
      | inr (url, said, e) ↦
          let reg = registered now id secret url in
          inr (
            url,
            said,
            ap (λ r. r.0) e,
            rw e (fire_webhooks-put stringify hmac later event payload id reg webhooks logs new),
            rw e (delete_webhook_route-put id reg webhooks new),
          )
    ]
