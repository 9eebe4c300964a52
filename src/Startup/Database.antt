-- ===== src/Startup/Database.antt =====
-- backend/src/db/database.ts, backend/src/db/migrationRunner.ts and backend/src/cli/migrate.ts: the choice
-- of the database, and the commands of the migrations. What a query of `pg` and a run of `db-migrate`
-- come back with is an argument; `node_env` is the variable NODE_ENV, `none` if unset.
use text.Mathlib.Text.{starts_with}
use stellar_kraal.Common.{
  ◌<>◌, str_eq, if◌then◌else◌, Bool-cases, length, All, ℕ, ◌≤◌, String, ◌≡◌, refl, inl, inr, Bool,
  true, false, not, ◌&&◌, ◌||◌, Option, none, some, List, [], ◌∷◌, arith,
}
use stellar_kraal.Http.{Outcome, Outcome-cases, resolved, rejected}
use stellar_kraal.Store.Paging.{truthy}

pub data DbDriver : Type 0 where
  sqlite pg : DbDriver

abbrev pub is_pg : DbDriver → Bool
is_pg sqlite = false
is_pg pg = true

unfoldable pub resolve_driver : Option String → DbDriver
resolve_driver url = elim (truthy url) [
  | none ↦ sqlite
  | some u ↦ if starts_with u "postgres://" || starts_with u "postgresql://" then pg else sqlite
]

-- `pgPool` is set up for the driver `pg` only.
unfoldable pub pg_query : {R : Type 0} → DbDriver → Outcome R → Outcome R
pg_query sqlite queried = rejected "pgQuery called but driver is not 'pg'"
pg_query pg queried = queried

pub record DbHealth : Type 0 where
  pub driver : DbDriver
  pub healthy : Bool
  pub detail : Option String

-- `selected` is what `SELECT 1` comes back with.
unfoldable pub db_health : {R : Type 0} → DbDriver → Outcome R → DbHealth
db_health sqlite selected = record { driver = sqlite; healthy = true; detail = none }
db_health pg (resolved r) = record { driver = pg; healthy = true; detail = none }
db_health pg (rejected e) = record { driver = pg; healthy = false; detail = some e }

abbrev pub is_production : Option String → Bool
is_production none = false
is_production (some e) = str_eq e "production"

-- Also for an unset or empty variable.
abbrev pub is_development : Option String → Bool
is_development node_env = elim (truthy node_env) [ none ↦ true | some e ↦ str_eq e "development" ]

-- A call of `db-migrate`: its command and its environment.
pub record Exec : Type 0 where
  pub command : String
  pub env : String

-- An async function that may run one command: what it ran and how it ends.
abbrev pub Run : Type 0 → Type 0
Run A = List Exec × Outcome A

abbrev pub failed_with : {A B : Type 0} → String → (A → B) → Outcome A → Outcome B
failed_with prefix f (resolved a) = resolved (f a)
failed_with prefix f (rejected e) = rejected (prefix <> e)

module _ (exec : Exec → Outcome String) where
  -- `error.message` stands for the caught error.
  unfoldable pub run_migrations : Option String → Run (Unit {0})
  run_migrations node_env =
      let call : Exec = record { command = "up"; env = "dev" } in
      if is_production node_env
      then ([], resolved tt)
      else if not (is_development node_env)
      then ([], resolved tt)
      else (call ∷ [], failed_with "Database migration failed: " (λ out. tt) (exec call))

  unfoldable pub get_migration_status : (String → String) → Option String → Run String
  get_migration_status trim node_env =
      let call : Exec = record {
        command = "check";
        env = if is_production node_env then "production" else "dev";
      } in
      (call ∷ [], failed_with "Failed to get migration status: " trim (exec call))

  unfoldable pub rollback_migration : Option String → Run (Unit {0})
  rollback_migration node_env =
      let call : Exec = record { command = "down"; env = "dev" } in
      if is_production node_env
      then (
        [],
        rejected "Rollback in production requires manual execution via npm run migrate:down",
      )
      else (call ∷ [], failed_with "Migration rollback failed: " (λ out. tt) (exec call))

  -- 0 where `main` returns, 1 where it calls `process.exit(1)`.
  abbrev pub exit_code : {A : Type 0} → Run A → List Exec × ℕ
  exit_code r = (r.0, elim r.1 [ resolved a ↦ 0 | rejected e ↦ 1 ])

  -- The command line: `argument` is `process.argv[2]`.
  unfoldable pub migrate_main : (String → String) → Option String → Option String → List Exec × ℕ
  unfolding run_migrations get_migration_status rollback_migration
  migrate_main trim node_env argument = elim argument [
    | none ↦ ([], 1)
    | some command ↦
        if str_eq command "status"
        then exit_code (get_migration_status trim node_env)
        else if str_eq command "up"
        then exit_code (run_migrations node_env)
        else if str_eq command "down"
        then exit_code (rollback_migration node_env)
        else ([], 1)
  ]

  abbrev pub is_allowed : Option String → Exec → Bool
  is_allowed node_env e =
      str_eq e.command "check" || (not (is_production node_env) && str_eq e.env "dev")

  abbrev pub IsSafe : Option String → List Exec → Type 0
  IsSafe node_env ran = (length ran ≤ 1) × All (λ e. is_allowed node_env e ≡ true) ran

  run_migrations-IsSafe : (node_env : Option String) → IsSafe node_env (run_migrations node_env).0
  unfolding run_migrations
  run_migrations-IsSafe node_env = elim (Bool-cases (is_production node_env)) [
    | inl e ↦ rw e (omega arith, tt)
    | inr e ↦ elim (Bool-cases (is_development node_env)) [
      | inl d ↦ rw (run_migrations, e, d) (omega arith, (refl, tt))
      | inr d ↦ rw (run_migrations, e, d) (omega arith, tt)
    ]
  ]

  rollback_migration-IsSafe :
      (node_env : Option String) → IsSafe node_env (rollback_migration node_env).0
  unfolding rollback_migration
  rollback_migration-IsSafe node_env = elim (Bool-cases (is_production node_env)) [
    | inl e ↦ rw (rollback_migration, e) (omega arith, tt)
    | inr e ↦ rw (rollback_migration, e) (omega arith, (refl, tt))
  ]

  -- A command line runs at most one command. In production that is no command that changes a database;
  -- elsewhere a change is made to the environment dev.
  pub migrate_main-IsSafe :
      (trim : String → String) (node_env argument : Option String)
      → IsSafe node_env (migrate_main trim node_env argument).0
  unfolding migrate_main get_migration_status
  migrate_main-IsSafe trim node_env none = (omega arith, tt)
  migrate_main-IsSafe trim node_env (some command) = elim (Bool-cases (str_eq command "status")) [
    | inl s ↦ rw s (omega arith, (refl, tt))
    | inr s ↦ elim (Bool-cases (str_eq command "up")) [
      | inl u ↦ rw (migrate_main, s, u) (run_migrations-IsSafe node_env)
      | inr u ↦ elim (Bool-cases (str_eq command "down")) [
        | inl d ↦ rw (migrate_main, s, u, d) (rollback_migration-IsSafe node_env)
        | inr d ↦ rw (migrate_main, s, u, d) (omega arith, tt)
      ]
    ]
  ]

  -- The start of backend/src/index.ts: whether it ends the process after the migrations.
  unfoldable pub startup_aborts : Option String → Bool
  unfolding run_migrations
  startup_aborts node_env = elim (run_migrations node_env).1 [
    | resolved a ↦ false
    | rejected e ↦ is_production node_env
  ]

  -- A failed migration ends the process in no environment: in production none is run.
  pub startup_aborts_lem : (node_env : Option String) → startup_aborts node_env ≡ false
  unfolding startup_aborts run_migrations
  startup_aborts_lem node_env = elim (Bool-cases (is_production node_env)) [
    | inl e ↦ rw (startup_aborts, run_migrations, e) refl
    | inr e ↦ elim (Bool-cases (is_development node_env)) [
      | inl d ↦ elim (Outcome-cases (exec (record { command = "up"; env = "dev" }))) [
        | inl (out, o) ↦ rw (startup_aborts, run_migrations, e, d, o) refl
        | inr (w, o) ↦ rw (startup_aborts, run_migrations, e, d, o) e
      ]
      | inr d ↦ rw (startup_aborts, run_migrations, e, d) refl
    ]
  ]
