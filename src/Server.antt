-- ===== src/Server.antt =====
-- backend/src/index.ts: the window of 5xx errors, the error handler, the health checks and the
-- graceful shutdown; backend/src/middleware/errorHandler.ts and backend/src/routes/health.ts.
pub mod Window
pub mod Shutdown
pub mod Timeout
use stellar_kraal.Common.{
  ◌<>◌, ltb, leb, if◌then◌else◌, length, ℕ, zero, suc, ◌+◌, ◌*◌, ◌<◌, min, String, ap, Bool, true,
  false, ◌&&◌, Option, none, some, List, [], ◌∷◌, ◌++◌,
}
use stellar_kraal.Http.{Outcome, resolved, rejected}
use stellar_kraal.Alerting.{
  AlertSeverity, Channels, Notification, LastFired, fire_alert, fivexx_spike,
}

abbrev pub fivexx_window_ms : ℕ
fivexx_window_ms = 60000

abbrev pub fivexx_threshold : ℕ
fivexx_threshold = 10

-- `fivexxTimestamps`, oldest first, and the alerts' `lastFired`.
pub record Monitor : Type 0 where
  pub fivexx_timestamps : List ℕ
  pub last_fired : LastFired

-- The `while` that shifts; `at < now - window`, in whole milliseconds since the epoch.
unfoldable pub evict : ℕ → List ℕ → List ℕ
evict now [] = []
evict now (at ∷ ts) =
    let rest = evict now ts in if ltb (at + fivexx_window_ms) now then rest else at ∷ ts

-- `show` is the template's text of a number.
unfoldable pub track_5xx : (ℕ → String) → Channels → ℕ → Monitor → List Notification × Monitor
unfolding evict
track_5xx show ch now m =
    let ts = evict now (m.fivexx_timestamps ++ now ∷ []) in
    let (sent, fired) =
      fire_alert ch now fivexx_spike (show (length ts) <> " 5xx errors in the last 60s")
        m.last_fired in
    if leb fivexx_threshold (length ts)
    then (sent, record { fivexx_timestamps = ts; last_fired = fired })
    else ([], record m { fivexx_timestamps = ts })

-- What a handler throws: `PoolExhaustedError`, an `AppError`, or another error.
pub data Thrown : Type 0 where
  pool_exhausted : Thrown
  app_error : ℕ → String → String → Thrown
  other_error : String → Thrown

-- The status, the message, and the code if there is one.
pub record ErrorReply : Type 0 where
  pub status : ℕ
  pub error : String
  pub code : Option String

-- `errorHandler`; the correlation id is left out.
unfoldable pub error_reply : Thrown → ErrorReply
error_reply pool_exhausted = record {
  status = 503;
  error = "Service unavailable: connection pool exhausted";
  code = none;
}
error_reply (app_error status message code) = record {
  status = status;
  error = message;
  code = some code;
}
error_reply (other_error message) = record {
  status = 500;
  error = message;
  code = some "INTERNAL_ERROR";
}

-- `err instanceof PoolExhaustedError`
abbrev pub is_pool_exhausted : Thrown → Bool
is_pool_exhausted pool_exhausted = true
is_pool_exhausted _ = false

-- The handler at the end of the chain.
unfoldable pub handle_error :
    (ℕ → String) → Channels → ℕ → Thrown → Monitor → (ErrorReply × List Notification) × Monitor
unfolding error_reply track_5xx
handle_error show ch now e m =
    let (sent, m') = track_5xx show ch now m in
    if is_pool_exhausted e then ((error_reply e, []), m) else ((error_reply e, sent), m')

pub data ComponentStatus : Type 0 where
  ok degraded : ComponentStatus

abbrev pub component : Bool → ComponentStatus
component true = ok
component false = degraded

-- `r.status === "fulfilled" ? r.value : false`
abbrev pub settled : Outcome Bool → Bool
settled (resolved b) = b
settled (rejected e) = false

-- `rpcClient.getHealth().then(() => true).catch(() => false)`
abbrev pub reachable : Outcome (Unit {0}) → Bool
reachable (resolved _) = true
reachable (rejected e) = false

pub record DeepHealthResponse : Type 0 where
  pub db : ComponentStatus
  pub rpc : ComponentStatus
  pub disk : ComponentStatus

-- GET /api/health: the status, `db` and `rpcReachable`.
unfoldable pub health : Bool → Outcome (Unit {0}) → ℕ × Bool × Bool
health db (resolved _) = (if db then 200 else 503, db, true)
health db (rejected e) = (503, db, false)

-- GET /api/v1/health/ready; `getHealth` of the RPC client is its outcome.
unfoldable pub ready : Outcome Bool → Outcome (Unit {0}) → ℕ × ComponentStatus × ComponentStatus
ready db rpc =
    let up = reachable rpc in
    (if settled db && up then 200 else 503, component (settled db), component up)

-- GET /api/v1/health/deep
unfoldable pub deep : Outcome Bool → Outcome (Unit {0}) → Outcome Bool → ℕ × DeepHealthResponse
deep db rpc disk =
    let up = reachable rpc in
    (
      if settled db && up && settled disk then 200 else 503,
      record { db = component (settled db); rpc = component up; disk = component (settled disk) },
    )

abbrev pub disk_min_free_bytes : ℕ
disk_min_free_bytes = 500 * 1024 * 1024

-- The branch of `checkDiskHealth` on `fs.statfs`: `bfree` and `bsize`.
unfoldable pub check_disk_health : Outcome (ℕ × ℕ) → Bool
check_disk_health (rejected e) = false
check_disk_health (resolved (bfree, bsize)) = leb disk_min_free_bytes (bfree * bsize)
