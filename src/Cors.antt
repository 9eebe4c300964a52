-- ===== src/Cors.antt =====
-- backend/src/middleware/cors.ts: which origins are allowed. `origins` is the text split at the commas,
-- trimmed, without the empty parts; `is_url` is the test of the regular expression.
use stellar_kraal.Common.{
  ◌<>◌, str_eq, if◌then◌else◌, Bool-cases, any_by, String, ◌≡◌, refl, inl, inr, Bool, true, false,
  not, ◌&&◌, ◌||◌, Option, none, some, List, [], ◌∷◌, arith,
}
use stellar_kraal.Http.{Outcome, Outcome-cases, resolved, rejected}
use stellar_kraal.Store.Paging.{truthy}

abbrev pub has_text : String → List String → Bool
has_text t xs = any_by (λ x. str_eq x t) xs

-- The loop that checks the origins.
unfoldable pub check_origins : (String → Bool) → Bool → List String → Outcome (Unit {0})
check_origins is_url prod [] = resolved tt
check_origins is_url prod (o ∷ os) =
    let rest = check_origins is_url prod os in
    if str_eq o "*"
    then (if prod
        then rejected
            "ALLOWED_ORIGINS: wildcard \"*\" is not permitted in production (NODE_ENV=production)"
        else rest)
    else if not (is_url o)
    then rejected (
        "ALLOWED_ORIGINS: invalid origin pattern \"" <> o <> "\" — must be an HTTP(S) URL or \"*\"")
    else rest

-- `none` for an unset or empty variable.
unfoldable pub parse_allowed_origins :
    (String → Bool) → Bool → Option (List String) → Outcome (Option (List String))
unfolding check_origins
parse_allowed_origins is_url prod none = resolved none
parse_allowed_origins is_url prod (some origins) = elim (check_origins is_url prod origins) [
  | rejected e ↦ rejected e
  | resolved _ ↦ resolved (some origins)
]

-- `req.path.startsWith("/api") && req.path !== "/api/health"`; `under_api` is the first test.
unfoldable pub is_auth_route : Bool → String → Bool
is_auth_route under_api path = under_api && not (str_eq path "/api/health")

-- The `origin` option: `true` reflects any origin, `"*"` is sent as it is, `false` allows none, a text
-- is the one that is sent, and a list is the callback.
pub data Origin : Type 0 where
  reflect star nobody : Origin
  fixed : String → Origin
  one_of : List String → Origin

unfoldable pub resolve_origin : Bool → Bool → Option (List String) → Option String → Origin
resolve_origin prod auth (some allowed) frontend =
    if has_text "*" allowed then if auth then reflect else star else one_of allowed
resolve_origin prod auth none frontend = elim (truthy frontend) [
  | some url ↦ fixed url
  | none ↦ if prod then nobody else if auth then reflect else star
]

-- Whether the answer to a request with that `Origin` header lets its page read it.
unfoldable pub lets_read : Origin → String → Bool
lets_read reflect origin = true
lets_read star origin = true
lets_read nobody origin = false
lets_read (fixed url) origin = str_eq url "*" || str_eq url origin
lets_read (one_of allowed) origin = has_text origin allowed

-- In production, a list of origins that was let through at the start has no wildcard.
check_origins-no_star :
    (is_url : String → Bool) (origins : List String)
    → check_origins is_url true origins ≡ resolved tt
    → has_text "*" origins ≡ false
unfolding check_origins
check_origins-no_star is_url [] e = refl
check_origins-no_star is_url (o ∷ os) e =
    ground
      (arith, e, check_origins-no_star is_url os, Bool-cases (str_eq o "*"), Bool-cases (is_url o))

parse_allowed_origins-accepts :
    (is_url : String → Bool) (origins : List String)
    → parse_allowed_origins is_url true (some origins) ≡ resolved (some origins)
    → check_origins is_url true origins ≡ resolved tt
unfolding parse_allowed_origins
parse_allowed_origins-accepts is_url origins e =
    elim (Outcome-cases (check_origins is_url true origins)) [
      | inl (u, eq) ↦ eq
      | inr (w, eq) ↦ ground (arith, e, eq)
    ]

-- In production, when the start has accepted a list of allowed origins, a page may read an answer
-- exactly when its origin is in that list.
pub lets_read-resolve_origin :
    (is_url : String → Bool) (origins : List String) (auth : Bool) (frontend : Option String)
    (origin : String)
    → parse_allowed_origins is_url true (some origins) ≡ resolved (some origins)
    → lets_read (resolve_origin true auth (some origins) frontend) origin ≡ has_text origin origins
unfolding resolve_origin lets_read
lets_read-resolve_origin is_url origins auth frontend origin e =
    ground
      (arith, check_origins-no_star is_url origins (parse_allowed_origins-accepts is_url origins e))
