-- ===== src/Caches/Idempotency.antt =====
-- backend/src/middleware/idempotency.ts. A body is of any type.
use stellar_kraal.Common.{
  ltb, if◌then◌else◌, Dict, get, put, remove, get-put_self, get-put_ne, get-remove_self, ℕ, ◌+◌,
  ◌-◌, String, ◌≡◌, ◌∙◌, ◌≢◌, Option, none, some, arith,
}

pub record IdempotencyEntry (B : Type 0) : Type 0 where
  pub status : ℕ
  pub body : B
  pub created_at : ℕ

abbrev pub ttl_ms : ℕ
ttl_ms = 86400000

-- An expired entry is taken out.
unfoldable pub get_idempotency_entry :
    {B : Type 0}
    → ℕ
    → String
    → Dict (IdempotencyEntry B)
    → Option (IdempotencyEntry B) × Dict (IdempotencyEntry B)
get_idempotency_entry now key cache = elim (get key cache) [
  | none ↦ (none, cache)
  | some entry ↦
      if ltb ttl_ms (now - entry.created_at) then (none, remove key cache) else (some entry, cache)
]

unfoldable pub set_idempotency_entry :
    {B : Type 0} → ℕ → String → ℕ → B → Dict (IdempotencyEntry B) → Dict (IdempotencyEntry B)
set_idempotency_entry now key status body cache =
    put key (record { status = status; body = body; created_at = now }) cache

-- What was set under a key is what the key gives for 24 hours, whatever is set under other keys in
-- between, and after that it gives nothing and the entry is gone.
pub get_idempotency_entry-set_idempotency_entry :
    {B : Type 0} (t u v : ℕ) (key other : String) (status status' : ℕ) (body body' : B)
    (cache : Dict (IdempotencyEntry B))
    → other ≢ key
    → let cache' =
        set_idempotency_entry u other status' body'
          (set_idempotency_entry t key status body cache) in
      let live : Option (IdempotencyEntry B) =
        if ltb (t + ttl_ms) v
        then none
        else some (record { status = status; body = body; created_at = t }) in
      ((get_idempotency_entry v key cache').0 ≡ live)
      × (get key (get_idempotency_entry v key cache').1 ≡ live)
unfolding get_idempotency_entry set_idempotency_entry
get_idempotency_entry-set_idempotency_entry t u v key other status status' body body' cache ne =
    let entry : IdempotencyEntry _ = record { status = status; body = body; created_at = t } in
    let entry' : IdempotencyEntry _ = record { status = status'; body = body'; created_at = u } in
    let found =
      get-put_ne other key entry' (put key entry cache) ne ∙ get-put_self key entry cache in
    (
      ground (arith, found),
      ground (arith, found, get-remove_self key (put other entry' (put key entry cache))),
    )
