-- ===== src/Auth/Sessions.antt =====
-- backend/src/middleware/auth.ts: signed tokens, login nonces and refresh tokens over time.
use stellar_kraal.Common.{
  ◌<>◌, ltb, if◌then◌else◌, str_eq_refl, Bool-cases, Option-cases, get, remove, get-put_self,
  get-put_ne, get-remove_self, ℕ, ◌+◌, ◌/◌, ◌≤◌, String, ◌≡◌, refl, sym, ap, ◌∙◌, ◌≢◌, inl, inr,
  true, false, Option, none, some, arith,
}
use stellar_kraal.Auth.Tokens.{
  Crypto, CryptoLaws, Payload, expired, claims, sign_jwt, verify_parts, verify_jwt, RefreshEntry,
  Sessions, Ttls, AuthReply, denied, issued, issue_tokens, is_stale, login_with, refresh,
}

-- A token that the service signed verifies to its own claims until the second it expires in has
-- passed, and as expired after it, given the documented behaviour of the encoding.
pub verify_jwt-sign_jwt :
    (c : Crypto) (now : ℕ) (p : Payload)
    → CryptoLaws c p
    → verify_jwt c now (sign_jwt c p) ≡ (if ltb p.exp (now / 1000) then expired else claims p)
unfolding verify_jwt verify_parts sign_jwt
verify_jwt-sign_jwt c now p laws =
    rw (laws.split_token)
      (rw (str_eq_refl (c.hmac (c.header <> "." <> c.encode p))) (rw (laws.decode-encode) refl))

is_stale_mono :
    (now later : ℕ) → (o : Option ℕ) → now ≤ later → is_stale now o ≡ true → is_stale later o ≡ true
is_stale_mono now later none h e = refl
is_stale_mono now later (some t) h e = ground arith

ltb_of_le : (m n : ℕ) → m ≤ n → ltb n m ≡ false
ltb_of_le m n h = ground arith

-- What a login leaves in the store under its nonce is stale from then on.
is_stale-after :
    (c : Crypto)
    → (ttl : Ttls) → (now later : ℕ) → (raw wallet nonce signature : String) → (s : Sessions)
    → now ≤ later
    → is_stale later (get nonce (login_with c ttl now raw wallet nonce signature s).1.challenges)
      ≡ true
unfolding login_with issue_tokens
is_stale-after c ttl now later raw wallet nonce signature s h =
    elim (Bool-cases (is_stale now (get nonce s.challenges))) [
      | inl stale ↦ rw stale (is_stale_mono now later (get nonce s.challenges) h stale)
      | inr fresh ↦ rw fresh (elim (Option-cases (c.verify_signature wallet nonce signature)) [
        | inl e ↦ rw e (rw (get-remove_self nonce s.challenges) refl)
        | inr (valid, e) ↦ rw e (elim (Bool-cases valid) [
          | inl v ↦ rw v (rw (get-remove_self nonce s.challenges) refl)
          | inr v ↦ rw v (rw (get-remove_self nonce s.challenges) refl)
        ])
      ])
    ]

login_with-stale :
    (c : Crypto)
    → (ttl : Ttls) → (now : ℕ) → (raw wallet nonce signature : String) → (s : Sessions)
    → is_stale now (get nonce s.challenges) ≡ true
    → login_with c ttl now raw wallet nonce signature s
      ≡ (denied 401 "Invalid or expired challenge", s)
unfolding login_with
login_with-stale c ttl now raw wallet nonce signature s e = rw e refl

-- A nonce serves one login: whatever a login answers, a later login with the same nonce, by anyone
-- and with any signature, is refused with 401 and changes nothing.
pub login_with-once :
    (c : Crypto)
    → (ttl : Ttls) → (now later : ℕ) → (raw raw' wallet wallet' nonce signature signature' : String)
    → (s : Sessions) → now ≤ later
    → login_with c ttl later raw' wallet' nonce signature'
        (login_with c ttl now raw wallet nonce signature s).1
      ≡ (
        denied 401 "Invalid or expired challenge",
        (login_with c ttl now raw wallet nonce signature s).1,
      )
login_with-once c ttl now later raw raw' wallet wallet' nonce signature signature' s h =
    login_with-stale c ttl later raw' wallet' nonce signature'
      (login_with c ttl now raw wallet nonce signature s).1
      (is_stale-after c ttl now later raw wallet nonce signature s h)

-- The token in a reply.
abbrev pub cookie_of : AuthReply → Option String
cookie_of (denied n e) = none
cookie_of (issued t raw n) = some raw

refresh-found :
    (c : Crypto)
    → (ttl : Ttls) → (now : ℕ) → (raw old : String) → (entry : RefreshEntry) → (s : Sessions)
    → get (c.hash_token old) s.refresh_tokens ≡ some entry
    → now ≤ entry.exp
    → refresh c ttl now raw (some old) s
      ≡ issue_tokens c ttl now raw entry.public_key
          (record s { refresh_tokens = remove (c.hash_token old) s.refresh_tokens })
unfolding refresh
refresh-found c ttl now raw old entry s found live =
    ground (arith, found, ltb_of_le now entry.exp live)

refresh-unknown :
    (c : Crypto)
    → (ttl : Ttls) → (now : ℕ) → (raw old : String) → (s : Sessions)
    → get (c.hash_token old) s.refresh_tokens ≡ none
    → refresh c ttl now raw (some old) s ≡ (denied 401 "INVALID_TOKEN", s)
unfolding refresh
refresh-unknown c ttl now raw old s e = ground arith

-- The store after a refresh that succeeds.
abbrev after : Crypto → Ttls → ℕ → String → String → RefreshEntry → Sessions → Sessions
after c ttl now raw old entry s =
    (issue_tokens c ttl now raw entry.public_key
      (record s { refresh_tokens = remove (c.hash_token old) s.refresh_tokens })).1

-- A refresh token serves one refresh. After a refresh that issued new tokens, the old token is
-- refused with 401, while the new one is accepted until its time is over and issues tokens for the
-- same account, provided that the two tokens have different hashes.
pub refresh-rotates :
    (c : Crypto)
    → (ttl : Ttls) → (now later : ℕ) → (raw raw' old : String) → (entry : RefreshEntry)
    → (s : Sessions) → get (c.hash_token old) s.refresh_tokens ≡ some entry
    → now ≤ entry.exp
    → c.hash_token old ≢ c.hash_token raw
    → later ≤ now + ttl.refresh_ttl_ms
    → let s' = (refresh c ttl now raw (some old) s).1 in
      (cookie_of (refresh c ttl now raw (some old) s).0 ≡ some raw)
      × (refresh c ttl later raw' (some old) s' ≡ (denied 401 "INVALID_TOKEN", s'))
      × ((refresh c ttl later raw' (some raw) s').0
          ≡ (issue_tokens c ttl later raw' entry.public_key s).0)
unfolding issue_tokens
refresh-rotates c ttl now later raw raw' old entry s found live differ before =
    let new : RefreshEntry = record {
      public_key = entry.public_key;
      exp = now + ttl.refresh_ttl_ms;
    } in
    let rest = remove (c.hash_token old) s.refresh_tokens in
    let here = get-put_self (c.hash_token raw) new rest in
    rw (refresh-found c ttl now raw old entry s found live) (
      refl,
      refresh-unknown c ttl later raw' old (after c ttl now raw old entry s) (
          get-put_ne (c.hash_token raw) (c.hash_token old) new rest (λ e. differ (sym e))
          ∙ get-remove_self (c.hash_token old) s.refresh_tokens),
      ap (λ x. x.0)
          (refresh-found c ttl later raw' raw new (after c ttl now raw old entry s) here before),
    )
