-- ===== src/Startup.antt =====
-- backend/src/config.ts: what the start of the server makes of the environment. What `safeParse` of the
-- schema comes back with is an argument, but for the tests that the file itself passes to `refine`.
pub mod Database
use text.Mathlib.Text.{starts_with}
use stellar_kraal.Common.{
  ◌<>◌, leb, str_eq, if◌then◌else◌, Bool-cases, Option-cases, is_some, filter_by, values, ℕ, zero,
  suc, ◌+◌, ◌-◌, ◌*◌, ◌/◌, ◌<◌, String, ◌≡◌, refl, ap, inl, inr, Bool, true, false, not, ◌&&◌, ◌||◌,
  Option, none, some, List, [], ◌∷◌, ◌++◌, map, arith,
}
use stellar_kraal.Http.{Outcome, Outcome-cases, resolved, rejected}
use stellar_kraal.Store.Paging.{truthy}
use stellar_kraal.Cors.{has_text, check_origins, parse_allowed_origins}

-- `xs.every(p)`
abbrev every : {A : Type 0} → (A → Bool) → List A → Bool
every p [] = true
every p (x ∷ xs) = p x && every p xs

-- The test of ALLOWED_ORIGINS. The variable is `none` when unset or empty, else split at the commas,
-- trimmed, without the empty parts; `is_url` is the test of the regular expression.
unfoldable pub refine_allowed_origins : (String → Bool) → Bool → Option (List String) → Bool
refine_allowed_origins is_url prod none = true
refine_allowed_origins is_url prod (some origins) =
    if prod && has_text "*" origins then false else every (λ o. str_eq o "*" || is_url o) origins

-- The test of DATABASE_URL.
unfoldable pub refine_database_url : Option String → Bool
refine_database_url url = elim (truthy url) [
  | none ↦ true
  | some u ↦ starts_with u "postgres://" || starts_with u "postgresql://" || starts_with u "sqlite:"
]

-- The test of SHUTDOWN_TIMEOUT_MS, on the parsed number.
unfoldable pub refine_shutdown_timeout : ℕ → Bool
refine_shutdown_timeout ms = leb 1000 ms

-- An issue of the schema: `is_missing` says that its code is invalid_type and `undefined` was received.
pub record Issue : Type 0 where
  pub is_missing : Bool
  pub path : String
  pub message : String

abbrev pub issue_line : Issue → String
issue_line i = "  - " <> i.path <> ": " <> i.message

-- The lines on the standard error for a list of issues; a section without issues has no head.
unfoldable pub issue_section : String → List Issue → List String
issue_section head [] = []
issue_section head (i ∷ is) = head ∷ map issue_line (i ∷ is)

unfoldable pub failure_lines : List Issue → List String
unfolding issue_section
failure_lines issues =
    "\n❌ Environment validation failed\n"
    ∷ (issue_section "Missing required variables:" (filter_by (λ i. i.is_missing) issues)
        ++ (issue_section "\nInvalid variable values:" (filter_by (λ i. not i.is_missing) issues)
            ++ ("\nPlease check your .env file or environment configuration."
                ∷ "See env.example for reference.\n" ∷ [])))

pub data NodeEnv : Type 0 where
  development production test : NodeEnv

-- The fields of the parsed environment that the production check reads, and those of `refine`.
pub record Env : Type 0 where
  pub node_env : NodeEnv
  pub jwt_secret : Option String
  pub webhook_secret : Option String
  pub database_url : Option String

-- `productionRequired` without the keys that have a value, by their labels.
unfoldable pub missing_for_production : Env → List String
missing_for_production env =
    elim (truthy env.jwt_secret) [ none ↦ "JWT_SECRET" ∷ [] | some s ↦ [] ]
    ++ elim (truthy env.webhook_secret) [ none ↦ "WEBHOOK_SECRET" ∷ [] | some s ↦ [] ]

-- `process.exit(1)` after these lines, or the `config` that the module exports.
pub data Loaded : Type 0 where
  exits : List String → Loaded
  exports : Env → Loaded

abbrev pub required_line : String → String
required_line label = "  - " <> label <> " is required when NODE_ENV=production"

abbrev pub production_lines : List String → List String
production_lines labels =
    "\n❌ Missing required variables for production\n"
    ∷ (map required_line labels ++ ("\nPlease set these in your production environment.\n" ∷ []))

unfoldable pub check_production : Env → Loaded
unfolding missing_for_production
check_production env = elim (missing_for_production env) [
  | [] ↦ exports env
  | label ∷ more ↦ exits (production_lines (label ∷ more))
]

-- `safeParse` gives the issues or the environment.
pub data Parsed : Type 0 where
  failure : List Issue → Parsed
  success : Env → Parsed

unfoldable pub load_config : Parsed → Loaded
unfolding failure_lines check_production
load_config (failure issues) = exits (failure_lines issues)
load_config (success env) = elim env.node_env [
  | production ↦ check_production env
  | development ↦ exports env
  | test ↦ exports env
]

-- Whether the two secrets of production are given.
abbrev pub has_secrets : Env → Bool
has_secrets env = is_some (truthy env.jwt_secret) && is_some (truthy env.webhook_secret)

check_production-exports : (env : Env) → has_secrets env ≡ true → check_production env ≡ exports env
unfolding check_production missing_for_production
check_production-exports env h =
    ground
      (arith, h, Option-cases (truthy env.jwt_secret), Option-cases (truthy env.webhook_secret))

check_production-exits :
    (env : Env)
    → has_secrets env ≡ false
    → check_production env ≡ exits (production_lines (missing_for_production env))
unfolding check_production missing_for_production
check_production-exits env h =
    ground
      (arith, h, Option-cases (truthy env.jwt_secret), Option-cases (truthy env.webhook_secret))

-- Whether an outcome is one that goes on.
abbrev pub is_resolved : {A : Type 0} → Outcome A → Bool
is_resolved (resolved a) = true
is_resolved (rejected e) = false

refine-check_origins :
    (is_url : String → Bool) (prod : Bool) (origins : List String)
    → refine_allowed_origins is_url prod (some origins)
      ≡ is_resolved (check_origins is_url prod origins)
unfolding refine_allowed_origins check_origins
refine-check_origins is_url prod [] = ground (arith, Bool-cases prod)
refine-check_origins is_url prod (o ∷ os) = ground (
  arith,
  refine-check_origins is_url prod os,
  Bool-cases prod,
  Bool-cases (str_eq o "*"),
  Bool-cases (is_url o),
)

-- The schema's test of ALLOWED_ORIGINS accepts a value exactly when `parseAllowedOrigins` of the CORS
-- middleware does not throw on it at the start.
pub refine_allowed_origins-parse_allowed_origins :
    (is_url : String → Bool) (prod : Bool) (origins : Option (List String))
    → refine_allowed_origins is_url prod origins
      ≡ is_resolved (parse_allowed_origins is_url prod origins)
unfolding refine_allowed_origins parse_allowed_origins
refine_allowed_origins-parse_allowed_origins is_url prod none = refl
refine_allowed_origins-parse_allowed_origins is_url prod (some os) =
    elim (Outcome-cases (check_origins is_url prod os)) [
      | inl (u, e) ↦ ground (arith, e, refine-check_origins is_url prod os)
      | inr (w, e) ↦ ground (arith, e, refine-check_origins is_url prod os)
    ]

abbrev pub is_startable : Env → Bool
is_startable env = elim env.node_env [
  | production ↦ has_secrets env
  | development ↦ true
  | test ↦ true
]

-- An environment that the schema accepts is exported if it is not one of production or has both
-- secrets; otherwise the process ends with lines that name the missing ones. For issues of the schema it
-- ends with their lines.
pub load_config_lem :
    (env : Env) (issues : List Issue)
    → (load_config (success env) ≡ (
        if is_startable env
        then exports env
        else exits (production_lines (missing_for_production env))))
      × (load_config (failure issues) ≡ exits (failure_lines issues))
unfolding load_config
load_config_lem env issues = elim (Bool-cases (has_secrets env)) [
  | inl k ↦ (ground (arith, k, check_production-exports env k), refl)
  | inr k ↦ (ground (arith, k, check_production-exits env k), refl)
]
