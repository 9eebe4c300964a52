-- ===== src/Auth/Gate.antt =====
-- backend/src/middleware/auth.ts: `jwtMiddleware`. A path is the list of its parts between slashes.
use stellar_kraal.Common.{
  str_eq, if◌then◌else◌, Dict, ℕ, String, Bool, true, false, not, ◌&&◌, ◌||◌, Option, none, some,
  List, [], ◌∷◌,
}
use text.Mathlib.Text.{starts_with}
use stellar_kraal.Http.{User}
use stellar_kraal.Auth.ApiKey.{
  AuthHeader, no_header, other_scheme, bearer, ApiKeyRecord, authenticate_api_key,
}
use stellar_kraal.Auth.Tokens.{Crypto, Verified, expired, claims, verify_jwt}

pub data Method : Type 0 where
  http_get http_post http_put http_delete http_patch http_head http_options : Method

pub record Request : Type 0 where
  pub method : Method
  pub path : List String
  pub authorization : AuthHeader

pub data GateResult : Type 0 where
  pass : Option User → GateResult
  deny : ℕ → String → GateResult

abbrev pub is_mutating : Method → Bool
is_mutating Method.http_post = true
is_mutating Method.http_put = true
is_mutating Method.http_delete = true
is_mutating Method.http_patch = true
is_mutating _ = false

abbrev pub is_get : Method → Bool
is_get Method.http_get = true
is_get _ = false

abbrev pub same_path : List String → List String → Bool
same_path [] [] = true
same_path (a ∷ xs) (b ∷ ys) = str_eq a b && same_path xs ys
same_path _ _ = false

-- `/^\/api\/loans\/[^/]+$/`
abbrev pub is_loan_path : List String → Bool
is_loan_path (a ∷ b ∷ c ∷ []) = str_eq a "api" && str_eq b "loans" && not (str_eq c "")
is_loan_path _ = false

-- `PROTECTED_GET_PATTERNS`
abbrev pub is_protected_path : List String → Bool
is_protected_path p =
    is_loan_path p
    || same_path p ("api" ∷ "collateral" ∷ [])
    || same_path p ("api" ∷ "v1" ∷ "loans" ∷ "summary" ∷ [])

-- `req.path.startsWith('/api/auth/')`
abbrev pub is_auth_path : List String → Bool
is_auth_path (a ∷ b ∷ c ∷ rest) = str_eq a "api" && str_eq b "auth"
is_auth_path _ = false

unfoldable pub needs_token : Request → Bool
needs_token r =
    (is_mutating r.method || (is_get r.method && is_protected_path r.path))
    && not (is_auth_path r.path)

-- `req.user = { publicKey }`: no role is ever set.
abbrev pub user_of : String → Option User
user_of key = some (record { public_key = some key; role = none })

-- The refusal for what `verifyJwt` throws.
abbrev pub gate_jwt : Verified → GateResult
gate_jwt (claims p) = pass (user_of p.sub)
gate_jwt expired = deny 401 "Token expired"
gate_jwt _ = deny 401 "Invalid token"

unfoldable pub gate_bearer : Crypto → ℕ → String → Dict ApiKeyRecord → GateResult
gate_bearer c now token keys =
    if starts_with token "sk_"
    then elim (authenticate_api_key c.hash_token (bearer token) keys) [
      | none ↦ deny 401 "Invalid or revoked API key"
      | some key ↦
          if str_eq key "" then deny 401 "Invalid or revoked API key" else pass (user_of key)
    ]
    else gate_jwt (verify_jwt c now token)

-- `jwtMiddleware`; a request that passes without a token has no user.
unfoldable pub jwt_middleware : Crypto → ℕ → Dict ApiKeyRecord → Request → GateResult
unfolding needs_token gate_bearer
jwt_middleware c now keys r = if not (needs_token r) then pass none else elim r.authorization [
  | no_header ↦ deny 401 "Authorization header required"
  | other_scheme h ↦ deny 401 "Authorization header required"
  | bearer token ↦ gate_bearer c now token keys
]
