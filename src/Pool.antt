-- ===== src/Pool.antt =====
-- backend/src/utils/connectionPool.ts: the pool of RPC servers. A server object is a number, its
-- identity; a new one is the next number. The Prometheus gauges are left out.
pub mod Invariant
use stellar_kraal.Common.{
  ltb, ◌==◌, if◌then◌else◌, length, filter_by, remove, ℕ, zero, suc, ◌+◌, ◌-◌, ◌*◌, ◌^◌, min, max,
  String, not, Option, none, some, List, [], ◌∷◌,
}
use stellar_kraal.Http.{Outcome, resolved, rejected}

pub record ConnectionPool : Type 0 where
  pub pool : List ℕ
  pub in_use : List ℕ
  pub min_size : ℕ
  pub max_size : ℕ
  pub next_server : ℕ

-- `for (let i = 0; i < min; i++) this.pool.push(new Server(RPC_URL))`; the top is the head.
unfoldable pub fill : ℕ → ConnectionPool → ConnectionPool
fill zero p = p
fill (suc n) p =
    fill n (record p { pool = p.next_server ∷ p.pool; next_server = suc p.next_server })

unfoldable pub new_pool : ℕ → ℕ → ConnectionPool
unfolding fill
new_pool lo hi =
    fill lo (record { pool = []; in_use = []; min_size = lo; max_size = hi; next_server = 0 })

-- `inUse.delete(conn)`
abbrev pub set_remove : ℕ → List ℕ → List ℕ
set_remove c xs = filter_by (λ x. not (x == c)) xs

-- `none` is the PoolExhaustedError.
unfoldable pub acquire : ConnectionPool → Option ℕ × ConnectionPool
acquire p = elim p.pool [
  | c ∷ rest ↦ (some c, record p { pool = rest; in_use = c ∷ p.in_use })
  | [] ↦
      if ltb (length p.in_use) p.max_size
      then (
        some p.next_server,
        record p { in_use = p.next_server ∷ p.in_use; next_server = suc p.next_server },
      )
      else (none, p)
]

unfoldable pub release : ℕ → ConnectionPool → ConnectionPool
release c p =
    let in_use = set_remove c p.in_use in
    if ltb (length p.pool + length in_use) p.max_size
    then record p { pool = c ∷ p.pool; in_use = in_use }
    else record p { in_use = in_use }

pub record PoolStats : Type 0 where
  pub size : ℕ
  pub available : ℕ
  pub in_use : ℕ
  pub min_size : ℕ
  pub max_size : ℕ

unfoldable pub stats : ConnectionPool → PoolStats
stats p = record {
  size = length p.pool + length p.in_use;
  available = length p.pool;
  in_use = length p.in_use;
  min_size = p.min_size;
  max_size = p.max_size;
}

unfoldable pub close : ConnectionPool → ConnectionPool
close p = record p { pool = []; in_use = [] }

abbrev pub max_retries : ℕ
max_retries = 3

abbrev pub base_delay_ms : ℕ
base_delay_ms = 1000

-- What a run of `withRetry` did: the calls made, the delays in between, and how it ended.
pub record Attempts (A : Type 0) : Type 0 where
  pub calls : ℕ
  pub delays : List ℕ
  pub ending : Outcome A

-- The loop from `attempt` on, with `left` rounds left; `fn` is what the call of each attempt comes
-- back with, and `last` is `lastError`.
unfoldable pub retry_from : {A : Type 0} → ℕ → ℕ → (ℕ → Outcome A) → String → Attempts A
retry_from zero attempt fn last = record { calls = 0; delays = []; ending = rejected last }
retry_from (suc left) attempt fn last = elim (fn attempt) [
  | resolved a ↦ record { calls = 1; delays = []; ending = resolved a }
  | rejected e ↦
      let rest = retry_from left (suc attempt) fn e in
      record {
        calls = suc rest.calls;
        delays =
            if ltb attempt (max_retries - 1)
            then (base_delay_ms * 2 ^ attempt) ∷ rest.delays
            else rest.delays;
        ending = rest.ending;
      }
]

unfoldable pub with_retry : {A : Type 0} → (ℕ → Outcome A) → Attempts A
unfolding retry_from
with_retry fn = retry_from max_retries 0 fn ""

-- `run`, with the requests that ran during its awaits as `meanwhile`. `none` is an exhausted pool.
unfoldable pub run_with :
    {A : Type 0}
    → (ℕ → ℕ → Outcome A)
    → (ConnectionPool → ConnectionPool)
    → ConnectionPool
    → Option (Attempts A) × ConnectionPool
run_with fn meanwhile p =
    let (got, p') = acquire p in
    elim got [ none ↦ (none, p') | some c ↦ (some (with_retry (fn c)), release c (meanwhile p')) ]
