-- ===== src/Auth/ApiKey.antt =====
-- backend/src/middleware/apiKey.ts: API keys, kept by the hash of the key. The generated key and its
-- id are arguments.
use stellar_kraal.Common.{
  ◌==◌, str_eq, if◌then◌else◌, Dict, get, put, values, ℕ, String, Bool, false, not, Option, none,
  some, List, [], ◌∷◌,
}
use text.Mathlib.Text.{starts_with}

pub record ApiKeyRecord : Type 0 where
  pub id : String
  pub owner_public_key : String
  pub key_hash : String
  pub created_at : ℕ
  pub revoked_at : Option ℕ

-- `authorization`: no header, one that does not begin with "Bearer ", or what follows that.
pub data AuthHeader : Type 0 where
  no_header : AuthHeader
  other_scheme : String → AuthHeader
  bearer : String → AuthHeader

pub data KeyReply : Type 0 where
  unauthenticated : KeyReply
  not_found : KeyReply
  forbidden : KeyReply
  created : String → String → KeyReply
  revoked : KeyReply

-- `user?.publicKey`: absent and empty are both refused.
abbrev pub known_key : Option String → Option String
known_key none = none
known_key (some k) = if str_eq k "" then none else some k

-- The truth of `record.revokedAt`: a time of 0 is falsy.
abbrev pub is_revoked : ApiKeyRecord → Bool
is_revoked r = elim r.revoked_at [ none ↦ false | some t ↦ not (t == 0) ]

-- The loop over `apiKeys.values()`.
unfoldable pub find_key : String → List ApiKeyRecord → Option String
find_key hashed [] = none
find_key hashed (r ∷ rs) =
    if str_eq r.key_hash hashed
    then if is_revoked r then none else some r.owner_public_key
    else find_key hashed rs

module _ (hash_key : String → String) where
  -- POST /
  unfoldable pub create_key :
      ℕ → String → String → Option String → Dict ApiKeyRecord → KeyReply × Dict ApiKeyRecord
  create_key now raw id user keys = elim (known_key user) [
    | none ↦ (unauthenticated, keys)
    | some owner ↦ (
      created id raw,
      put id
          (record {
            id = id;
            owner_public_key = owner;
            key_hash = hash_key raw;
            created_at = now;
            revoked_at = none;
          })
          keys,
    )
  ]

  unfoldable pub authenticate_api_key : AuthHeader → Dict ApiKeyRecord → Option String
  unfolding find_key
  authenticate_api_key no_header keys = none
  authenticate_api_key (other_scheme h) keys = none
  authenticate_api_key (bearer raw) keys =
      if starts_with raw "sk_" then find_key (hash_key raw) (values keys) else none

-- DELETE /:id
unfoldable pub revoke_key :
    ℕ → String → Option String → Dict ApiKeyRecord → KeyReply × Dict ApiKeyRecord
revoke_key now id user keys = elim (known_key user) [
  | none ↦ (unauthenticated, keys)
  | some k ↦ elim (get id keys) [
    | none ↦ (not_found, keys)
    | some r ↦
        if str_eq r.owner_public_key k
        then (revoked, put id (record r { revoked_at = some now }) keys)
        else (forbidden, keys)
  ]
]
