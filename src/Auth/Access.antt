-- ===== src/Auth/Access.antt =====
-- backend/src/middleware/auth.ts, `jwtMiddleware`: who gets past it, and as whom.
use stellar_kraal.Common.{
  ◌<>◌, ltb, str_eq, if◌then◌else◌, str_eq_iff, str_eq_refl, Bool-cases, Option-cases, All, Dict,
  values, ℕ, ◌/◌, ◌≤◌, String, ◌≡◌, refl, sym, ap, ◌∙◌, ◌↔◌, ◌⊎◌, inl, inr, Bool, true, false,
  Option, none, some, List, [], ◌∷◌, ◌++◌, arith,
}
use text.Mathlib.Text.{starts_with}
use stellar_kraal.Http.{User, is_admin}
use stellar_kraal.Auth.ApiKey.{
  ApiKeyRecord, AuthHeader, no_header, other_scheme, bearer, is_revoked, find_key,
  authenticate_api_key,
}
use stellar_kraal.Auth.Tokens.{
  Crypto, Payload, Verified, malformed, invalid_signature, unreadable, expired, claims,
  verify_parts, verify_jwt,
}
use stellar_kraal.Auth.Gate.{
  Request, GateResult, pass, deny, needs_token, user_of, gate_jwt, gate_bearer, jwt_middleware,
}

-- The first record with that hash, in the order of their creation, is living and belongs to the account.
abbrev pub IsKeyOf : List ApiKeyRecord → String → String → Type 0
IsKeyOf records hashed key =
    (before after : List ApiKeyRecord) × (r : ApiKeyRecord) × (records ≡ before ++ r ∷ after)
    × All (λ x. str_eq x.key_hash hashed ≡ false) before
    × (r.key_hash ≡ hashed)
    × (is_revoked r ≡ false)
    × (r.owner_public_key ≡ key)

-- Three parts, of which the last is the signature of the first two and the second holds claims whose time
-- is not over, with the account as their subject.
abbrev pub IsTokenOf : Crypto → ℕ → List String → String → Type 0
IsTokenOf c now parts key =
    (header body : String) × (p : Payload) × (parts
      ≡ header ∷ body ∷ c.hmac (header <> "." <> body) ∷ [])
    × (c.decode body ≡ some p)
    × (now / 1000 ≤ p.exp)
    × (p.sub ≡ key)

-- A bearer token speaks for an account: an API key of it, or a signed token of it.
abbrev pub SpeaksFor : Crypto → ℕ → Dict ApiKeyRecord → String → String → Type 0
SpeaksFor c now keys token key =
    ((starts_with token "sk_" ≡ true)
      × (str_eq key "" ≡ false)
      × IsKeyOf (values keys) (c.hash_token token) key)
    ⊎ ((starts_with token "sk_" ≡ false) × IsTokenOf c now (c.split_dots token) key)

find_key-IsKeyOf :
    (hashed key : String) (rs : List ApiKeyRecord)
    → find_key hashed rs ≡ some key
    → IsKeyOf rs hashed key
unfolding find_key
find_key-IsKeyOf hashed key [] e = cc
find_key-IsKeyOf hashed key (r ∷ rs) e = elim (Bool-cases (str_eq r.key_hash hashed)) [
  | inl same ↦ (
    [],
    rs,
    r,
    refl,
    tt,
    (str_eq_iff r.key_hash hashed).0 same,
    ground (arith, e, same, Bool-cases (is_revoked r)),
    ground (arith, e, same, Bool-cases (is_revoked r)),
  )
  | inr other ↦
      let (before, after, x, at, earlier, rest, living, own) =
        find_key-IsKeyOf hashed key rs (ground (arith, e, other)) in
      (r ∷ before, after, x, ap (λ xs. r ∷ xs) at, (other, earlier), rest, living, own)
]

find_key-append :
    (hashed : String) (before after : List ApiKeyRecord) (r : ApiKeyRecord)
    → All (λ x. str_eq x.key_hash hashed ≡ false) before
    → r.key_hash ≡ hashed
    → is_revoked r ≡ false
    → find_key hashed (before ++ r ∷ after) ≡ some r.owner_public_key
unfolding find_key
find_key-append hashed [] after r h same living =
    ground (arith, living, (str_eq_iff r.key_hash hashed).1 same)
find_key-append hashed (x ∷ before) after r (other, h) same living =
    ground (arith, other, find_key-append hashed before after r h same living)

verify_parts-IsTokenOf :
    (c : Crypto) (now : ℕ) (parts : List String) (p : Payload)
    → verify_parts c now parts ≡ claims p
    → IsTokenOf c now parts p.sub
unfolding verify_parts
verify_parts-IsTokenOf c now [] p e = ground arith
verify_parts-IsTokenOf c now (h ∷ []) p e = ground arith
verify_parts-IsTokenOf c now (h ∷ b ∷ []) p e = ground arith
verify_parts-IsTokenOf c now (h ∷ b ∷ sig ∷ x ∷ more) p e = ground arith
verify_parts-IsTokenOf c now (h ∷ b ∷ sig ∷ []) p e =
    let code = c.hmac (h <> "." <> b) in
    elim (Bool-cases (str_eq sig code)) [
      | inr forged ↦ ground (arith, e, forged)
      | inl signed ↦ elim (Option-cases (c.decode b)) [
        | inl none_read ↦ ground (arith, e, signed, none_read)
        | inr (q, read) ↦ elim (Bool-cases (ltb q.exp (now / 1000))) [
          | inl late ↦ ground (arith, e, signed, read, late)
          | inr timely ↦
              let same : q ≡ p = ground (arith, e, signed, read, timely) in
              (
                h,
                b,
                q,
                ap (λ t. h ∷ b ∷ t ∷ []) ((str_eq_iff sig code).0 signed),
                read,
                ground (arith, timely),
                ap (λ (x : Payload). x.sub) same,
              )
        ]
      ]
    ]

verify_parts_signed :
    (c : Crypto) (now : ℕ) (header body : String) (p : Payload)
    → c.decode body ≡ some p
    → now / 1000 ≤ p.exp
    → verify_parts c now (header ∷ body ∷ c.hmac (header <> "." <> body) ∷ []) ≡ claims p
unfolding verify_parts
verify_parts_signed c now header body p read timely =
    let late : ltb p.exp (now / 1000) ≡ false = ground (arith, timely) in
    rw (str_eq_refl (c.hmac (header <> "." <> body)), read, late) refl

abbrev user_in : GateResult → Option User
user_in (pass u) = u
user_in (deny n s) = none

pass-injective : {u v : Option User} → pass u ≡ pass v → u ≡ v
pass-injective e = ap user_in e

gate_jwt-pass :
    (v : Verified)
    → (u : Option User) → gate_jwt v ≡ pass u
    → (p : Payload) × (v ≡ claims p) × (u ≡ user_of p.sub)
gate_jwt-pass (claims p) u e = (p, refl, sym (pass-injective e))
gate_jwt-pass expired u e = ground arith
gate_jwt-pass malformed u e = ground arith
gate_jwt-pass invalid_signature u e = ground arith
gate_jwt-pass unreadable u e = ground arith

key_pass :
    (k : Option String)
    → (u : Option User)
    → elim k [
      | none ↦ deny 401 "Invalid or revoked API key"
      | some key ↦
          if str_eq key "" then deny 401 "Invalid or revoked API key" else pass (user_of key)
    ]
      ≡ pass u
    → (key : String) × (k ≡ some key) × (u ≡ user_of key) × (str_eq key "" ≡ false)
key_pass none u e = ground arith
key_pass (some key) u e = elim (Bool-cases (str_eq key "")) [
  | inl h ↦ ground arith
  | inr h ↦ (key, refl, sym (pass-injective (rw h at e)), h)
]

gate_bearer-pass :
    (c : Crypto)
    → (now : ℕ) → (keys : Dict ApiKeyRecord) → (token : String) → (u : Option User)
    → gate_bearer c now token keys ≡ pass u
    → (key : String) × (u ≡ user_of key) × SpeaksFor c now keys token key
unfolding gate_bearer authenticate_api_key verify_jwt
gate_bearer-pass c now keys token u e = elim (Bool-cases (starts_with token "sk_")) [
  | inl h ↦
      let (key, k, same, given) =
        key_pass (find_key (c.hash_token token) (values keys)) u (rw h at e) in
      (key, same, inl (h, given, find_key-IsKeyOf (c.hash_token token) key (values keys) k))
  | inr h ↦
      let (p, v, same) = gate_jwt-pass (verify_parts c now (c.split_dots token)) u (rw h at e) in
      (p.sub, same, inr (h, verify_parts-IsTokenOf c now (c.split_dots token) p v))
]

gate_bearer-SpeaksFor :
    (c : Crypto) (now : ℕ) (keys : Dict ApiKeyRecord) (token key : String)
    → SpeaksFor c now keys token key
    → gate_bearer c now token keys ≡ pass (user_of key)
unfolding gate_bearer authenticate_api_key verify_jwt
gate_bearer-SpeaksFor c now keys token key (inl (h, given, k)) =
    let (before, after, r, at, earlier, same, living, own) = k in
    let found : find_key (c.hash_token token) (values keys) ≡ some key =
      ap (find_key (c.hash_token token)) at
      ∙ find_key-append (c.hash_token token) before after r earlier same living
      ∙ ap some own in
    ground (arith, h, found, given)
gate_bearer-SpeaksFor c now keys token key (inr (h, t)) =
    let (header, body, p, parts, read, timely, own) = t in
    let verified : verify_parts c now (c.split_dots token) ≡ claims p =
      ap (verify_parts c now) parts ∙ verify_parts_signed c now header body p read timely in
    ground (arith, h, verified, own)

header_pass :
    (c : Crypto)
    → (now : ℕ) → (keys : Dict ApiKeyRecord) → (h : AuthHeader) → (u : Option User)
    → elim h [
      | no_header ↦ deny 401 "Authorization header required"
      | other_scheme s ↦ deny 401 "Authorization header required"
      | bearer token ↦ gate_bearer c now token keys
    ]
      ≡ pass u
    → (token : String) × (key : String) × (h ≡ bearer token)
      × (u ≡ user_of key)
      × SpeaksFor c now keys token key
header_pass c now keys no_header u e = ground arith
header_pass c now keys (other_scheme s) u e = ground arith
header_pass c now keys (bearer token) u e =
    let (key, same, speaks) = gate_bearer-pass c now keys token u e in
    (token, key, refl, same, speaks)

pub jwt_middleware_iff :
    (c : Crypto) (now : ℕ) (keys : Dict ApiKeyRecord) (r : Request) (u : Option User)
    → needs_token r ≡ true
    → (jwt_middleware c now keys r ≡ pass u) ↔ (
        (token : String) × (key : String) × (r.authorization ≡ bearer token)
        × (u ≡ user_of key)
        × SpeaksFor c now keys token key)
unfolding jwt_middleware
jwt_middleware_iff c now keys r u needs = (
  λ e. header_pass c now keys r.authorization u (rw needs at e),
  λ (token, key, sent, same, speaks).
      rw (needs, sent) (gate_bearer-SpeaksFor c now keys token key speaks ∙ ap pass (sym same)),
)

abbrev admin_in : Option User → Bool
admin_in none = false
admin_in (some u) = is_admin u

-- Nobody who gets past is an administrator: whatever the token says, the user has no role.
pub jwt_middleware-no_admin :
    (c : Crypto)
    → (now : ℕ) → (keys : Dict ApiKeyRecord) → (r : Request) → (u : User)
    → jwt_middleware c now keys r ≡ pass (some u)
    → is_admin u ≡ false
unfolding jwt_middleware
jwt_middleware-no_admin c now keys r u e = elim (Bool-cases (needs_token r)) [
  | inl h ↦
      let (token, key, sent, same, speaks) = (jwt_middleware_iff c now keys r (some u) h).0 e in
      ap admin_in same
  | inr h ↦ ap admin_in (sym (pass-injective (rw h at e)))
]
