-- ===== src/Server/Shutdown.antt =====
-- backend/src/index.ts: `gracefulShutdown` with its two timers, and the middleware that refuses requests
-- meanwhile. An error that `pool.close` or the job's `stop` throws is left out: neither of them throws.
use stellar_kraal.Common.{
  ltb, ◌==◌, if◌then◌else◌, Bool-cases, ℕ, ◌+◌, ◌≤◌, ◌≡◌, refl, ap, ◌∙◌, ◌⊎◌, inl, inr, Bool, true,
  false, not, ◌||◌, Option, none, some, List, [], ◌∷◌, ◌++◌, arith,
}
use stellar_kraal.Pool.{release, acquire, ConnectionPool, stats, close}

-- Whether the server serves, waits for the requests in flight, or has left with a code.
pub data Phase : Type 0 where
  serving draining : Phase
  exited : ℕ → Phase

-- `force_timer` is when `forceShutdownTimer` is due, if it has been set and not been cleared.
pub record Process : Type 0 where
  pub phase : Phase
  pub pool : ConnectionPool
  pub health_job_runs : Bool
  pub force_timer : Option ℕ

-- What reaches the process: a signal at a time, the check of every second, the timers that are due at a
-- time, and what the handlers in flight do with the pool.
pub data Happening : Type 0 where
  signal force_shutdown gives_back : ℕ → Happening
  check_interval borrows : Happening

-- What answers a request: one of the three handlers that index.ts mounts before the middleware (GET
-- /api/health, the router of /api/v1/health, the files of /uploads), or anything after it.
pub data Target : Type 0 where
  api_health health_router uploads beyond : Target

abbrev pub is_before : Target → Bool
is_before beyond = false
is_before _ = true

abbrev pub is_exited : Phase → Bool
is_exited (exited n) = true
is_exited _ = false

-- `isShuttingDown`
abbrev pub is_shutting_down : Process → Bool
is_shutting_down p = elim p.phase [ serving ↦ false | _ ↦ true ]

-- Whether a request comes to its handler: the shutdown middleware passes on nothing meanwhile.
unfoldable pub admits : Target → Process → Bool
admits r p = is_before r || not (is_shutting_down p)

abbrev pub use_pool : (ConnectionPool → ConnectionPool) → Process → Process
use_pool f p = elim p.phase [ exited n ↦ p | _ ↦ record p { pool = f p.pool } ]

-- `checkInterval`, and what follows once nothing is in use: the timer is cleared, too.
unfoldable pub check_in_use : Process → Process
check_in_use p = elim p.phase [
  | draining ↦
      if (stats p.pool).in_use == 0
      then record {
        phase = exited 0;
        pool = close p.pool;
        health_job_runs = false;
        force_timer = none;
      }
      else p
  | _ ↦ p
]

-- `forceShutdownTimer` at a time: it runs if it is set and due.
unfoldable pub force_exit : ℕ → Process → Process
force_exit now p = elim p.force_timer [
  | none ↦ p
  | some due ↦ if ltb now due then p else record p { phase = exited 1; force_timer = none }
]

-- `timeout_ms` is SHUTDOWN_TIMEOUT_MS.
module _ (timeout_ms : ℕ) where
  -- `gracefulShutdown(signal)`, which sets the timer.
  unfoldable pub graceful_shutdown : ℕ → Process → Process
  graceful_shutdown now p =
      if is_shutting_down p
      then p
      else record p { phase = draining; force_timer = some (now + timeout_ms) }

  unfoldable pub happen : Happening → Process → Process
  unfolding graceful_shutdown check_in_use force_exit
  happen (signal now) p = graceful_shutdown now p
  happen check_interval p = check_in_use p
  happen (force_shutdown now) p = force_exit now p
  happen borrows p = use_pool (λ q. (acquire q).1) p
  happen (gives_back c) p = use_pool (release c) p

  abbrev pub run : List Happening → Process → Process
  run [] p = p
  run (h ∷ hs) p = run hs (happen h p)

  -- It waits with the timer set, or it has left and the timer is cleared.
  abbrev IsStopping : ℕ → Process → Type 0
  IsStopping due p =
      ((p.phase ≡ draining) × (p.force_timer ≡ some due))
      ⊎ ((n : ℕ) × (p.phase ≡ exited n) × (p.force_timer ≡ none))

  -- What a happening makes of the process: its phase stays as it is, it is forced to leave at a time when the
  -- timer is due, or it leaves in order.
  abbrev pub IsOrderly : ℕ → Happening → Process → Process → Type 0
  IsOrderly due h p q =
      (q.phase ≡ p.phase)
      ⊎ ((t : ℕ) × (h ≡ force_shutdown t) × (due ≤ t) × (q.phase ≡ exited 1))
      ⊎ ((q.phase ≡ exited 0)
          × ((stats p.pool).in_use ≡ 0)
          × (q.pool ≡ close p.pool)
          × (q.health_job_runs ≡ false))

  check_in_use-waits : (p : Process) → ((stats p.pool).in_use == 0) ≡ false → check_in_use p ≡ p
  unfolding check_in_use
  check_in_use-waits p z = ground (arith, z)

  force_exit-waits :
      (now due : ℕ) (p : Process)
      → p.force_timer ≡ some due
      → ltb now due ≡ true
      → force_exit now p ≡ p
  unfolding force_exit
  force_exit-waits now due p f z = ground (arith, f, z)

  happen-draining :
      (due : ℕ) (h : Happening) (p : Process)
      → p.phase ≡ draining
      → p.force_timer ≡ some due
      → IsStopping due (happen h p) × IsOrderly due h p (happen h p)
  unfolding happen
  happen-draining due (signal now) p e f =
      let same : happen (signal now) p ≡ p = ground (arith, e) in rw same (inl (e, f), inl refl)
  happen-draining due check_interval p e f = elim (Bool-cases ((stats p.pool).in_use == 0)) [
    | inl z ↦ rw (e, z) (inr (0, refl, refl), inr (inr (refl, ground (arith, z), refl, refl)))
    | inr z ↦ rw (check_in_use-waits p z) (inl (e, f), inl refl)
  ]
  happen-draining due (force_shutdown now) p e f = elim (Bool-cases (ltb now due)) [
    | inl z ↦ rw (force_exit-waits now due p f z) (inl (e, f), inl refl)
    | inr z ↦ rw (f, z) (inr (1, refl, refl), inr (inl (now, refl, ground (arith, z), refl)))
  ]
  happen-draining due borrows p e f = rw e (inl (refl, f), inl refl)
  happen-draining due (gives_back c) p e f = rw e (inl (refl, f), inl refl)

  happen-exited :
      (h : Happening) (p : Process) (n : ℕ)
      → p.phase ≡ exited n
      → p.force_timer ≡ none
      → happen h p ≡ p
  unfolding happen
  happen-exited (signal now) p n e f = rw e refl
  happen-exited check_interval p n e f = rw e refl
  happen-exited (force_shutdown now) p n e f = rw f refl
  happen-exited borrows p n e f = rw e refl
  happen-exited (gives_back c) p n e f = rw e refl

  happen-IsStopping :
      (due : ℕ) (h : Happening) (p : Process)
      → IsStopping due p
      → IsStopping due (happen h p) × IsOrderly due h p (happen h p)
  happen-IsStopping due h p (inl (e, f)) = happen-draining due h p e f
  happen-IsStopping due h p (inr (n, e, f)) = rw (happen-exited h p n e f) (inr (n, e, f), inl refl)

  run-IsStopping :
      (due : ℕ) (hs : List Happening) (p : Process) → IsStopping due p → IsStopping due (run hs p)
  run-IsStopping due [] p s = s
  run-IsStopping due (h ∷ hs) p s =
      run-IsStopping due hs (happen h p) (happen-IsStopping due h p s).0

  run-exited :
      (hs : List Happening) (p : Process) (n : ℕ)
      → p.phase ≡ exited n
      → p.force_timer ≡ none
      → run hs p ≡ p
  run-exited [] p n e f = refl
  run-exited (h ∷ hs) p n e f = rw (happen-exited h p n e f) (run-exited hs p n e f)

  run-append : (hs ks : List Happening) (p : Process) → run (hs ++ ks) p ≡ run ks (run hs p)
  run-append [] ks p = refl
  run-append (h ∷ hs) ks p = run-append hs ks (happen h p)

  graceful_shutdown-IsStopping :
      (now : ℕ) (p : Process)
      → p.phase ≡ serving
      → IsStopping (now + timeout_ms) (graceful_shutdown now p)
  unfolding graceful_shutdown
  graceful_shutdown-IsStopping now p e = rw e (inl (refl, refl))

  IsStopping-admits :
      (due : ℕ) (r : Target) (p : Process) → IsStopping due p → admits r p ≡ is_before r
  unfolding admits
  IsStopping-admits due r p (inl (e, f)) = ground (arith, e, Bool-cases (is_before r))
  IsStopping-admits due r p (inr (n, e, f)) = ground (arith, e, Bool-cases (is_before r))

  -- A process that serves lets every request in. From a signal on, whatever signals, checks and timers
  -- follow and whatever the requests in flight do with the pool, it lets in no request but those for the
  -- health checks and the uploads; and each thing that happens leaves its phase as it is, or forces it to
  -- leave, which no timer does before the timeout is over, or lets it leave with code 0, which needs that
  -- no server of the pool is in use at that moment, closes the pool and stops the health job.
  pub graceful_shutdown-refuses :
      (now : ℕ) (hs : List Happening) (h : Happening) (p : Process)
      → p.phase ≡ serving
      → let q = run hs (graceful_shutdown now p) in
        ((r : Target) → (admits r p ≡ true) × (admits r q ≡ is_before r))
        × IsOrderly (now + timeout_ms) h q (happen h q)
  unfolding admits
  graceful_shutdown-refuses now hs h p e =
      let s =
        run-IsStopping (now + timeout_ms) hs (graceful_shutdown now p)
          (graceful_shutdown-IsStopping now p e) in
      let q = run hs (graceful_shutdown now p) in
      (
        λ r. (
          ground (arith, e, Bool-cases (is_before r)),
          IsStopping-admits (now + timeout_ms) r q s,
        ),
        (happen-IsStopping (now + timeout_ms) h q s).1,
      )

  force_exit-IsStopping :
      (due later : ℕ) (p : Process)
      → due ≤ later
      → IsStopping due p
      → let q = happen (force_shutdown later) p in
        (n : ℕ) × (q.phase ≡ exited n) × (q.force_timer ≡ none)
  unfolding happen
  force_exit-IsStopping due later p le (inl (e, f)) =
      let over : ltb later due ≡ false = ground arith in rw (f, over) (1, refl, refl)
  force_exit-IsStopping due later p le (inr (n, e, f)) =
      rw (happen-exited (force_shutdown later) p n e f) (n, e, f)

  -- A signal sets the timer: the timers that are due at any time from the timeout on find the process
  -- gone or make it leave, and it stays gone, whatever happens before and after that, a further signal
  -- among it.
  pub graceful_shutdown-exits :
      (now later : ℕ) (hs ks : List Happening) (p : Process)
      → p.phase ≡ serving
      → now + timeout_ms ≤ later
      → is_exited (run (hs ++ force_shutdown later ∷ ks) (graceful_shutdown now p)).phase ≡ true
  graceful_shutdown-exits now later hs ks p e le =
      let q = run hs (graceful_shutdown now p) in
      let (n, left, cleared) = force_exit-IsStopping (now + timeout_ms) later q le (
        run-IsStopping (now + timeout_ms) hs (graceful_shutdown now p)
          (graceful_shutdown-IsStopping now p e)) in
      ap (λ (x : Process). is_exited x.phase)
        (run-append hs (force_shutdown later ∷ ks) (graceful_shutdown now p)
          ∙ run-exited ks (happen (force_shutdown later) q) n left cleared)
      ∙ ap is_exited left
