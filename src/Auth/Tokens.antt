-- ===== src/Auth/Tokens.antt =====
-- backend/src/middleware/auth.ts: tokens, challenges, login and refresh. Random values are arguments.
use stellar_kraal.Common.{
  ◌<>◌, ltb, ◌==◌, str_eq, if◌then◌else◌, Dict, get, put, remove, ℕ, ◌+◌, ◌/◌, String, ◌≡◌, Bool,
  true, not, ◌||◌, Option, none, some, List, [], ◌∷◌,
}
use stellar_kraal.Auth.ApiKey.{known_key}

-- The claims of a token that the code reads.
pub record Payload : Type 0 where
  pub sub : String
  pub iat : ℕ
  pub exp : ℕ

-- What the code takes from Node and the Stellar SDK: `createHash`, `createHmac` with the secret,
-- base64url and JSON, `split('.')`, and `Keypair.verify`, which may throw (`none`).
pub record Crypto : Type 0 where
  pub hash_token : String → String
  pub header : String
  pub hmac : String → String
  pub encode : Payload → String
  pub decode : String → Option Payload
  pub split_dots : String → List String
  pub verify_signature : String → String → String → Option Bool

-- Documented behaviour: decoding inverts encoding, and splitting takes the token of a payload apart,
-- since neither base64url nor hex has a dot.
pub record CryptoLaws (c : Crypto) (p : Payload) : Type 0 where
  pub decode-encode : c.decode (c.encode p) ≡ some p
  pub split_token :
      c.split_dots (c.header <> "." <> c.encode p <> "." <> c.hmac (c.header <> "." <> c.encode p))
      ≡ c.header ∷ c.encode p ∷ c.hmac (c.header <> "." <> c.encode p) ∷ []

pub data Verified : Type 0 where
  malformed : Verified
  invalid_signature : Verified
  unreadable : Verified
  expired : Verified
  claims : Payload → Verified

unfoldable pub sign_jwt : Crypto → Payload → String
sign_jwt c p = c.header <> "." <> c.encode p <> "." <> c.hmac (c.header <> "." <> c.encode p)

-- The three parts of a token.
unfoldable pub verify_parts : Crypto → ℕ → List String → Verified
verify_parts c now (header ∷ body ∷ sig ∷ []) =
    if not (str_eq sig (c.hmac (header <> "." <> body)))
    then invalid_signature
    else elim (c.decode body) [
      | none ↦ unreadable
      | some p ↦ if ltb p.exp (now / 1000) then expired else claims p
    ]
verify_parts c now parts = malformed

unfoldable pub verify_jwt : Crypto → ℕ → String → Verified
unfolding verify_parts
verify_jwt c now token = verify_parts c now (c.split_dots token)

pub record RefreshEntry : Type 0 where
  pub public_key : String
  pub exp : ℕ

pub record Sessions : Type 0 where
  pub challenges : Dict ℕ
  pub refresh_tokens : Dict RefreshEntry

pub record Ttls : Type 0 where
  pub access_ttl_ms : ℕ
  pub refresh_ttl_ms : ℕ

abbrev pub challenge_ttl_ms : ℕ
challenge_ttl_ms = 300000

-- A status and an error, or the access token with the cookie's refresh token.
pub data AuthReply : Type 0 where
  denied : ℕ → String → AuthReply
  issued : String → String → ℕ → AuthReply

unfoldable pub issue_tokens : Crypto → Ttls → ℕ → String → String → Sessions → AuthReply × Sessions
issue_tokens c ttl now raw public_key s = (
  issued
      (sign_jwt c
        (record { sub = public_key; iat = now / 1000; exp = (now + ttl.access_ttl_ms) / 1000 }))
      raw (ttl.access_ttl_ms / 1000),
  record s {
    refresh_tokens =
        put (c.hash_token raw) (record { public_key = public_key; exp = now + ttl.refresh_ttl_ms })
          s.refresh_tokens;
  },
)

-- GET /challenge
unfoldable pub issue_challenge : ℕ → String → Sessions → String × Sessions
issue_challenge now challenge s =
    (challenge, record s { challenges = put challenge (now + challenge_ttl_ms) s.challenges })

pub record LoginBody : Type 0 where
  pub wallet_address : Option String
  pub nonce : Option String
  pub signature : Option String

-- `!expiry || Date.now() > expiry`
abbrev pub is_stale : ℕ → Option ℕ → Bool
is_stale now none = true
is_stale now (some e) = e == 0 || ltb e now

-- The part of POST /login behind the check of the body.
unfoldable pub login_with :
    Crypto → Ttls → ℕ → String → String → String → String → Sessions → AuthReply × Sessions
unfolding issue_tokens
login_with c ttl now raw wallet nonce signature s =
    if is_stale now (get nonce s.challenges)
    then (denied 401 "Invalid or expired challenge", s)
    else let s' = record s { challenges = remove nonce s.challenges } in
      elim (c.verify_signature wallet nonce signature) [
        | none ↦ (denied 401 "Invalid wallet address or signature", s')
        | some valid ↦
            if valid
            then issue_tokens c ttl now raw wallet s'
            else (denied 401 "Signature verification failed", s')
      ]

abbrev pub login_missing : AuthReply
login_missing =
    denied 400 "walletAddress and signedChallenge (with nonce and signature) are required"

-- POST /login
unfoldable pub login : Crypto → Ttls → ℕ → String → LoginBody → Sessions → AuthReply × Sessions
unfolding login_with
login c ttl now raw body s = elim (known_key body.wallet_address) [
  | none ↦ (login_missing, s)
  | some wallet ↦ elim (known_key body.nonce) [
    | none ↦ (login_missing, s)
    | some nonce ↦ elim (known_key body.signature) [
      | none ↦ (login_missing, s)
      | some signature ↦ login_with c ttl now raw wallet nonce signature s
    ]
  ]
]

-- POST /refresh; the argument is the token that the cookie header's pattern finds.
unfoldable pub refresh :
    Crypto → Ttls → ℕ → String → Option String → Sessions → AuthReply × Sessions
unfolding issue_tokens
refresh c ttl now raw cookie s = elim cookie [
  | none ↦ (denied 400 "MISSING_TOKEN", s)
  | some old ↦ elim (get (c.hash_token old) s.refresh_tokens) [
    | none ↦ (denied 401 "INVALID_TOKEN", s)
    | some entry ↦
        if ltb entry.exp now
        then (denied 401 "INVALID_TOKEN", s)
        else issue_tokens c ttl now raw entry.public_key
            (record s { refresh_tokens = remove (c.hash_token old) s.refresh_tokens })
  ]
]
