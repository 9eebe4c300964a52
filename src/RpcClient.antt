-- ===== src/RpcClient.antt =====
-- backend/src/utils/rpcClient.ts: the RPC methods over the connection pool, each behind a circuit breaker
-- of the package opossum, which is an argument. The logs and the correlation id are left out.
pub mod Laws
use stellar_kraal.Common.{
  ◌==◌, if◌then◌else◌, take, any_by, get, remove, ℕ, zero, suc, ◌+◌, ◌-◌, String, Bool, true, false,
  not, ◌&&◌, Option, none, some, List, [], ◌∷◌, ◌++◌,
}
use stellar_kraal.Http.{Outcome, resolved, rejected}
use stellar_kraal.Alerting.{Channels, Notification, LastFired, fire_alert, rpc_circuit_open}
use stellar_kraal.Pool.{ConnectionPool, acquire, release, set_remove, with_retry}

pub data RpcMethod : Type 0 where
  get_account prepare_transaction simulate_transaction get_health get_transaction : RpcMethod

abbrev pub number_of : RpcMethod → ℕ
number_of get_account = 0
number_of prepare_transaction = 1
number_of simulate_transaction = 2
number_of get_health = 3
number_of get_transaction = 4

abbrev pub is_method : RpcMethod → RpcMethod → Bool
is_method k m = number_of k == number_of m

-- What the client uses of a breaker with states in `S`: whether it is open, whether it lets a call through
-- at a time, its state after a call that it let through, which went well or not, and its own two errors.
pub record Breaker (S : Type 0) : Type 0 where
  pub opened : S → Bool
  pub admits : ℕ → S → Bool
  pub settles : ℕ → Bool → S → S
  pub open_error : String
  pub timeout_error : String

-- The breakers, the pool under them, the servers of the late calls whose tries still go on, the times of
-- the alerts and what was sent.
pub record Client (S : Type 0) : Type 0 where
  pub state_of : RpcMethod → S
  pub pool : ConnectionPool
  pub running : List ℕ
  pub last_fired : LastFired
  pub sent : List Notification

-- A call: its method, what the servers answer to its attempts, whether its tries take longer than the ten
-- seconds of the breaker, and when the breaker begins with it and answers it.
pub record RpcCall (A : Type 0) : Type 0 where
  pub method : RpcMethod
  pub answers : ℕ → ℕ → Outcome A
  pub is_late : Bool
  pub begins : ℕ
  pub ends : ℕ

abbrev pub is_success : {A : Type 0} → Outcome A → Bool
is_success (resolved a) = true
is_success (rejected e) = false

-- What happens to the client: a call, or the tries of a late call come to their end, which gives back
-- their server and changes no breaker.
pub data Turn (A : Type 0) : Type 0 where
  calls : RpcCall A → Turn A
  ends_late : ℕ → Turn A

-- The `finally` of the pool's `run`, when the tries of a late call have ended.
unfoldable pub end_late : {S : Type 0} → ℕ → Client S → Client S
end_late server c =
    if any_by (λ x. x == server) c.running
    then record c { pool = release server c.pool; running = set_remove server c.running }
    else c

-- `rpcMethods[method]` when the breaker answers, with no other call meanwhile: how it ended, or `none` if
-- it goes on; the pool; and the server that it still has.
unfoldable pub rpc_method :
    {A : Type 0}
    → (ℕ → ℕ → Outcome A)
    → Bool
    → ConnectionPool
    → Option (Outcome A) × ConnectionPool × List ℕ
rpc_method fn late p =
    let (got, p') = acquire p in
    elim got [
      | none ↦ (some (rejected "Connection pool exhausted"), p', [])
      | some server ↦
          if late
          then (none, p', server ∷ [])
          else (some ((with_retry (fn server)).ending), release server p', [])
    ]

module _ {S : Type 0} (b : Breaker S) (ch : Channels) where
  -- The listener of `open`: a breaker that has opened fires the alert.
  unfoldable pub on_open : ℕ → S → S → LastFired → List Notification × LastFired
  on_open now before after fired =
      if not (b.opened before) && b.opened after
      then fire_alert ch now rpc_circuit_open "Circuit breaker opened for stellar-rpc" fired
      else ([], fired)

  -- A call that goes on is answered with the error of the time limit.
  abbrev pub answer_of : {A : Type 0} → Option (Outcome A) → Outcome A
  answer_of none = rejected b.timeout_error
  answer_of (some o) = o

  -- `rpcClient[method](…)`, which is `fire` of its breaker. A late call is answered with the breaker's own
  -- error, while its tries go on and keep their server.
  unfoldable pub fire : {A : Type 0} → RpcCall A → Client S → Outcome A × Client S
  unfolding rpc_method on_open
  fire call c =
      let before = c.state_of call.method in
      let (ended, pool, kept) = rpc_method call.answers call.is_late c.pool in
      let outcome = answer_of ended in
      let after = b.settles call.ends (is_success outcome) before in
      let alerted = on_open call.ends before after c.last_fired in
      if not (b.admits call.begins before) then (rejected b.open_error, c) else (
        outcome,
        record {
          state_of = λ k. if is_method k call.method then after else c.state_of k;
          pool = pool;
          running = kept ++ c.running;
          last_fired = alerted.1;
          sent = c.sent ++ alerted.0;
        },
      )

  unfoldable pub take_turn : {A : Type 0} → Turn A → Client S → Client S
  take_turn (calls call) c = (fire call c).1
  take_turn (ends_late server) c = end_late server c

  abbrev pub run : {A : Type 0} → List (Turn A) → Client S → Client S
  run [] c = c
  run (turn ∷ turns) c = run turns (take_turn turn c)

module _ {S : Type 0} (b : Breaker S) where
  abbrev pub circuit_state : S → String
  circuit_state s = if b.opened s then "open" else "closed"

  unfoldable pub get_circuit_states : Client S → RpcMethod → String
  get_circuit_states c m = circuit_state (c.state_of m)

  unfoldable pub is_healthy : Client S → Bool
  is_healthy c =
      not (b.opened (c.state_of get_account))
      && (not (b.opened (c.state_of prepare_transaction))
          && (not (b.opened (c.state_of simulate_transaction))
              && (not (b.opened (c.state_of get_health))
                  && not (b.opened (c.state_of get_transaction)))))
