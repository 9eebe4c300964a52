-- ===== src/Caches/Dedup.antt =====
-- backend/src/middleware/deduplication.ts. The hash of a body is a parameter; the handler runs
-- between the two parts of the middleware.
use stellar_kraal.Common.{
  ◌<>◌, ltb, leb, str_eq, if◌then◌else◌, str_eq_iff, Bool-cases, Dict, get, put, get-put_self, ℕ,
  ◌+◌, ◌-◌, String, ◌≡◌, subst, inl, inr, Bool, true, false, not, ◌&&◌, Option, none, some, [], ◌∷◌,
  arith, HasDistinctKeys, HasDistinctKeys-put,
}

pub record DedupeEntry (B : Type 0) : Type 0 where
  pub status : ℕ
  pub body : B
  pub created_at : ℕ

abbrev pub dedupe_ttl_ms : ℕ
dedupe_ttl_ms = 5000

abbrev pub dedupe_key : {A : Type 0} → (A → String) → String → A → String
dedupe_key hash public_key body = public_key <> ":" <> hash body

unfoldable pub evict_expired : {B : Type 0} → ℕ → Dict (DedupeEntry B) → Dict (DedupeEntry B)
evict_expired now [] = []
evict_expired now ((k, e) ∷ m) =
    let rest = evict_expired now m in
    if leb dedupe_ttl_ms (now - e.created_at) then rest else (k, e) ∷ rest

-- What becomes of a request: it is passed on, passed on with its answer to be recorded under a key,
-- or answered from the cache.
pub data Decision (B : Type 0) : Type 0 where
  pass_on : Decision B
  record_as : String → Decision B
  duplicate : ℕ → B → Decision B

unfoldable pub decide_key : {B : Type 0} → String → Dict (DedupeEntry B) → Decision B
decide_key key cache = elim (get key cache) [
  | none ↦ record_as key
  | some cached ↦ duplicate cached.status cached.body
]

-- Up to `next()`; the user is `user?.publicKey`.
unfoldable pub deduplicate :
    {A B : Type 0}
    → (A → String)
    → ℕ
    → Bool
    → Option String
    → A
    → Dict (DedupeEntry B)
    → Decision B × Dict (DedupeEntry B)
unfolding evict_expired decide_key
deduplicate hash now is_post user body cache = if not is_post then (pass_on, cache) else elim user [
  | none ↦ (pass_on, cache)
  | some public_key ↦
      if str_eq public_key ""
      then (pass_on, cache)
      else let cache' = evict_expired now cache in
        (decide_key (dedupe_key hash public_key body) cache', cache')
]

-- The `res.json` that the middleware puts in place of the response's own.
unfoldable pub json_recorded :
    {B : Type 0} → ℕ → String → ℕ → B → Dict (DedupeEntry B) → Dict (DedupeEntry B)
json_recorded now key status body cache =
    if leb 200 status && ltb status 300
    then put key (record { status = status; body = body; created_at = now }) cache
    else cache

evict_expired-keeps :
    {B : Type 0} (now : ℕ) (key : String) (e : DedupeEntry B) (m : Dict (DedupeEntry B))
    → get key m ≡ some e
    → leb dedupe_ttl_ms (now - e.created_at) ≡ false
    → get key (evict_expired now m) ≡ some e
unfolding evict_expired get
evict_expired-keeps now key e [] h live = h
evict_expired-keeps now key e ((k, d) ∷ m) h live =
    let rest = evict_expired-keeps now key e m in
    elim (Bool-cases (str_eq k key)) [
      | inl same ↦ ground (arith, same)
      | inr other ↦ ground (arith, other, rest)
    ]

evict_expired-absent :
    {B : Type 0} (now : ℕ) (key : String) (m : Dict (DedupeEntry B))
    → get key m ≡ none
    → get key (evict_expired now m) ≡ none
unfolding evict_expired get
evict_expired-absent now key [] h = h
evict_expired-absent now key ((k, d) ∷ m) h = ground (arith, evict_expired-absent now key m)

evict_expired-drops :
    {B : Type 0} (now : ℕ) (key : String) (e : DedupeEntry B) (m : Dict (DedupeEntry B))
    → HasDistinctKeys m
    → get key m ≡ some e
    → leb dedupe_ttl_ms (now - e.created_at) ≡ true
    → get key (evict_expired now m) ≡ none
unfolding evict_expired get
evict_expired-drops now key e [] d h old = ground arith
evict_expired-drops now key e ((k, w) ∷ m) (fresh, d) h old =
    let rest = evict_expired-drops now key e m d in
    elim (Bool-cases (str_eq k key)) [
      | inl same ↦
          let gone =
            evict_expired-absent now key m
              (subst (λ j. get j m ≡ none) ((str_eq_iff k key).0 same) fresh) in
          ground (arith, same, gone)
      | inr other ↦ ground (arith, other, rest)
    ]

decide_key-found :
    {B : Type 0} (key : String) (e : DedupeEntry B) (m : Dict (DedupeEntry B))
    → get key m ≡ some e
    → decide_key key m ≡ duplicate e.status e.body
unfolding decide_key
decide_key-found key e m h = ground (arith, h)

decide_key-absent :
    {B : Type 0} (key : String) (m : Dict (DedupeEntry B))
    → get key m ≡ none
    → decide_key key m ≡ record_as key
unfolding decide_key
decide_key-absent key m h = ground (arith, h)

-- After a successful answer to a POST of a signed-in user was recorded, the same request by the same
-- user gets that answer from the cache for five seconds, and is handled anew from then on.
pub deduplicate-json_recorded :
    {A B : Type 0} (hash : A → String) (t u status : ℕ) (user : String) (request : A) (body : B)
    (cache : Dict (DedupeEntry B))
    → HasDistinctKeys cache
    → str_eq user "" ≡ false
    → leb 200 status && ltb status 300 ≡ true
    → let key = dedupe_key hash user request in
      let cache' = json_recorded t key status body cache in
      (deduplicate hash u true (some user) request cache').0
      ≡ (if ltb u (t + dedupe_ttl_ms) then duplicate status body else record_as key)
unfolding deduplicate json_recorded
deduplicate-json_recorded hash t u status user request body cache distinct known ok =
    let key = dedupe_key hash user request in
    let entry : DedupeEntry _ = record { status = status; body = body; created_at = t } in
    let found = get-put_self key entry cache in
    let kept = put key entry cache in
    rw known (
      rw ok (elim (Bool-cases (ltb u (t + dedupe_ttl_ms))) [
        | inl h ↦ rw h (
            decide_key-found key entry _
              (evict_expired-keeps u key entry kept found (ground arith)))
        | inr h ↦ rw h (
            decide_key-absent key _ (
              evict_expired-drops u key entry kept (HasDistinctKeys-put key entry cache distinct)
                found (ground arith)))
      ]))
