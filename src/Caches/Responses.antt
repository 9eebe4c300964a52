-- ===== src/Caches/Responses.antt =====
-- backend/src/utils/responseCache.ts. A key is the path, the query and the user, joined.
use stellar_kraal.Common.{
  ◌<>◌, ltb, ◌==◌, str_eq, if◌then◌else◌, str_eq_iff, str_eq_refl, Bool-cases, Dict, get, put,
  get-put_self, ℕ, ◌-◌, ◌≤◌, String, ◌≡◌, refl, sym, subst, ◌≢◌, inl, inr, Bool, false, not, ◌&&◌,
  ◌||◌, Option, none, some, [], ◌∷◌, arith,
}
use text.Mathlib.Text.{starts_with}

pub record CachedBody (B : Type 0) : Type 0 where
  pub body : B
  pub cached_at : ℕ

abbrev pub default_cache_ttl_ms : ℕ
default_cache_ttl_ms = 30000

-- A GET request, its query already printed, with its two cache headers.
pub record CacheRequest : Type 0 where
  pub path : String
  pub query : String
  pub user : Option String
  pub cache_control : Option String
  pub pragma : Option String

abbrev pub user_key : Option String → String
user_key none = "anonymous"
user_key (some k) = k

abbrev pub cache_key : CacheRequest → String
cache_key r = r.path <> "?" <> r.query <> "::" <> user_key r.user

abbrev pub is_no_cache : Option String → Bool
is_no_cache none = false
is_no_cache (some h) = str_eq h "no-cache"

abbrev pub no_cache : CacheRequest → Bool
no_cache r = is_no_cache r.cache_control || is_no_cache r.pragma

abbrev pub is_expired : {B : Type 0} → ℕ → ℕ → CachedBody B → Bool
is_expired now ttl e = ltb ttl (now - e.cached_at)

-- The body that the middleware answers with itself, or `none`: the handler answers.
unfoldable pub cached_response :
    {B : Type 0} → ℕ → ℕ → CacheRequest → Dict (CachedBody B) → Option B
cached_response ttl now r store = if no_cache r then none else elim (get (cache_key r) store) [
  | none ↦ none
  | some entry ↦ if is_expired now ttl entry then none else some entry.body
]

-- The `res.json` that the middleware puts in place of the response's own.
unfoldable pub json_cached :
    {B : Type 0} → ℕ → CacheRequest → ℕ → B → Dict (CachedBody B) → Dict (CachedBody B)
json_cached now r status body store =
    if status == 200 && not (no_cache r)
    then put (cache_key r) (record { body = body; cached_at = now }) store
    else store

unfoldable pub invalidate_cache : {B : Type 0} → String → Dict (CachedBody B) → Dict (CachedBody B)
invalidate_cache prefix [] = []
invalidate_cache prefix ((k, e) ∷ m) =
    let rest = invalidate_cache prefix m in if starts_with k prefix then rest else (k, e) ∷ rest

head_entry :
    {B : Type 0} (prefix key : String) (e : CachedBody B) (m : Dict (CachedBody B))
    → get key (invalidate_cache prefix m) ≡ (if starts_with key prefix then none else get key m)
    → get key (invalidate_cache prefix ((key, e) ∷ m))
      ≡ (if starts_with key prefix then none else get key ((key, e) ∷ m))
unfolding invalidate_cache get
head_entry prefix key e m rest = elim (Bool-cases (starts_with key prefix)) [
  | inl h ↦ rw h (rw h at rest)
  | inr h ↦ rw h (rw (str_eq_refl key) refl)
]

-- Invalidation takes out exactly the entries whose key begins with the prefix.
pub get-invalidate_cache :
    {B : Type 0} (prefix key : String) (store : Dict (CachedBody B))
    → get key (invalidate_cache prefix store)
      ≡ (if starts_with key prefix then none else get key store)
unfolding invalidate_cache get
get-invalidate_cache prefix key [] = ground arith
get-invalidate_cache prefix key ((k, e) ∷ m) =
    let rest = get-invalidate_cache prefix key m in
    elim (Bool-cases (str_eq k key)) [
      | inl same ↦
          subst
            (λ j.
              get key (invalidate_cache prefix ((j, e) ∷ m))
              ≡ (if starts_with key prefix then none else get key ((j, e) ∷ m)))
            (sym ((str_eq_iff k key).0 same)) (head_entry prefix key e m rest)
      | inr other ↦ elim (Bool-cases (starts_with k prefix)) [
        | inl h ↦ rw h (rw other rest)
        | inr h ↦ rw h (rw other rest)
      ]
    ]

-- A body that was cached answers the same request for the TTL, unless the request asks for no cache;
-- a response other than 200 is not cached.
pub cached_response-json_cached :
    {B : Type 0} (ttl t u status : ℕ) (r : CacheRequest) (body : B) (store : Dict (CachedBody B))
    → no_cache r ≡ false
    → t ≤ u
    → (cached_response ttl u r (json_cached t r 200 body store)
        ≡ (if ltb ttl (u - t) then none else some body))
      × (status ≢ 200 → json_cached t r status body store ≡ store)
unfolding cached_response json_cached
cached_response-json_cached ttl t u status r body store wanted le =
    let entry : CachedBody _ = record { body = body; cached_at = t } in
    let found = get-put_self (cache_key r) entry store in
    (ground (arith, wanted, found), λ h. ground (arith, h))
