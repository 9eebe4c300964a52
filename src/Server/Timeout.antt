-- ===== src/Server/Timeout.antt =====
-- backend/src/middleware/timeout.ts: the timers on one request. A route with a time limit of its own has
-- two, since backend/src/index.ts puts the middleware in front of every route as well.
use stellar_kraal.Common.{
  ◌==◌, if◌then◌else◌, Bool-cases, Option-cases, is_some, filter_by, any_by, ℕ, suc, ◌≡◌, refl, ◌⊎◌,
  inr, Bool, true, false, not, Option, none, some, List, [], ◌∷◌, ◌++◌, arith,
}

-- `sent` is the status of the answer once its headers are out, `timers` the limits of the timers that
-- run, and `thrown` counts the answers after the first one, which Express refuses with an exception.
pub record Exchange : Type 0 where
  pub sent : Option ℕ
  pub timers : List ℕ
  pub thrown : ℕ

abbrev pub new_exchange : Exchange
new_exchange = record { sent = none; timers = []; thrown = 0 }

-- `timeoutMiddleware(ms)`; `websocket` is the test of the header `upgrade`.
unfoldable pub timeout_middleware : ℕ → Bool → Exchange → Exchange
timeout_middleware ms websocket x = if websocket then x else record x { timers = ms ∷ x.timers }

-- What may happen next: a timer runs out, the handler answers with a status, the answer is through
-- (`finish`), or the connection closes.
pub data Event : Type 0 where
  runs_out answers : ℕ → Event
  finishes closes : Event

abbrev pub has_timer : ℕ → List ℕ → Bool
has_timer ms timers = any_by (λ t. t == ms) timers

unfoldable pub step : Event → Exchange → Exchange
step (runs_out ms) x =
    if has_timer ms x.timers
    then elim x.sent [
      | some status ↦ record x { timers = filter_by (λ t. not (t == ms)) x.timers }
      | none ↦ record x { sent = some 504; timers = filter_by (λ t. not (t == ms)) x.timers }
    ]
    else x
step (answers status) x = elim x.sent [
  | some first ↦ record x { thrown = suc x.thrown }
  | none ↦ record x { sent = some status }
]
step finishes x = elim x.sent [ some status ↦ record x { timers = [] } | none ↦ x ]
step closes x = record x { timers = [] }

unfoldable pub run : List Event → Exchange → Exchange
unfolding step
run [] x = x
run (e ∷ es) x = run es (step e x)

abbrev pub is_close : Event → Bool
is_close closes = true
is_close _ = false

run-sent :
    (es : List Event) (x : Exchange) (status : ℕ)
    → x.sent ≡ some status
    → (run es x).sent ≡ some status
unfolding run step
run-sent [] x status h = h
run-sent (e ∷ es) x status h = run-sent es (step e x) status (step-sent e)
  where
    step-sent : (e : Event) → (step e x).sent ≡ some status
    step-sent (runs_out ms) = ground (arith, h)
    step-sent (answers code) = ground (arith, h)
    step-sent finishes = ground (arith, h)
    step-sent closes = h

-- The timer still runs, or there is an answer.
abbrev IsDue : ℕ → Exchange → Type 0
IsDue ms x = (is_some x.sent ≡ true) ⊎ (has_timer ms x.timers ≡ true)

step-IsDue :
    (ms : ℕ) (e : Event) (x : Exchange) → is_close e ≡ false → IsDue ms x → IsDue ms (step e x)
unfolding step
step-IsDue ms (runs_out t) x c h =
    ground (arith, h, Option-cases x.sent, Bool-cases (has_timer t x.timers))
step-IsDue ms (answers code) x c h = ground (arith, h, Option-cases x.sent)
step-IsDue ms finishes x c h = ground (arith, h, Option-cases x.sent)
step-IsDue ms closes x c h = cc

run-IsDue :
    (ms : ℕ) (es : List Event) (x : Exchange)
    → any_by is_close es ≡ false
    → IsDue ms x
    → IsDue ms (run es x)
unfolding run
run-IsDue ms [] x c h = h
run-IsDue ms (e ∷ es) x c h =
    run-IsDue ms es (step e x) (ground (arith, c, Bool-cases (is_close e)))
      (step-IsDue ms e x (ground (arith, c, Bool-cases (is_close e))) h)

run-append : (es fs : List Event) (x : Exchange) → run (es ++ fs) x ≡ run fs (run es x)
unfolding run
run-append [] fs x = refl
run-append (e ∷ es) fs x = run-append es fs (step e x)

-- The answer that is out when a timer has run out.
abbrev pub or_timeout : Option ℕ → ℕ
or_timeout none = 504
or_timeout (some status) = status

step-runs_out :
    (ms : ℕ) (x : Exchange) → IsDue ms x → (step (runs_out ms) x).sent ≡ some (or_timeout x.sent)
unfolding step
step-runs_out ms x h = ground (arith, h, Option-cases x.sent, Bool-cases (has_timer ms x.timers))

-- A request with the timers of all routes and of its own route: when either of the two runs out, the first
-- or the second, and the connection is open until then, the request has its answer, which is the one that
-- was out before, or 504. Whatever happens from then on, that answer stays.
pub run-runs_out :
    (limit_of_all limit_of_route ms : ℕ) (before after : List Event)
    → (ms ≡ limit_of_all) ⊎ (ms ≡ limit_of_route)
    → any_by is_close before ≡ false
    → let start =
        timeout_middleware limit_of_route false
          (timeout_middleware limit_of_all false new_exchange) in
      (run (before ++ (runs_out ms ∷ after)) start).sent ≡ some (or_timeout (run before start).sent)
unfolding run timeout_middleware
run-runs_out limit_of_all limit_of_route ms before after either open_until =
    let start : Exchange = record new_exchange { timers = limit_of_route ∷ limit_of_all ∷ [] } in
    let due = run-IsDue ms before start open_until (
      inr (
        ground
          (arith, either, Bool-cases (limit_of_route == ms), Bool-cases (limit_of_all == ms)))) in
    rw (run-append before (runs_out ms ∷ after) start) (
      run-sent after (step (runs_out ms) (run before start)) (or_timeout (run before start).sent)
        (step-runs_out ms (run before start) due))
