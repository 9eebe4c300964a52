-- ===== src/Caches/Appraisals.antt =====
-- backend/src/utils/appraisalCache.ts. The stored `stale` is false always; a read decides it anew.
use stellar_kraal.Common.{
  ltb, if◌then◌else◌, length, Dict, get, put, remove, get-put_self, get-remove_self, get-remove_ne,
  ℕ, ◌-◌, String, ◌≡◌, refl, ◌≢◌, Bool, true, false, Option, none, some, [], arith,
}

pub record CacheEntry : Type 0 where
  pub value : ℕ
  pub cached_at : ℕ
  pub stale : Bool

pub record AppraisalCache : Type 0 where
  pub cache : Dict CacheEntry
  pub ttl_ms : ℕ

unfoldable pub configure_cache_ttl : ℕ → AppraisalCache → AppraisalCache
configure_cache_ttl ms c = record c { ttl_ms = ms }

unfoldable pub get_appraisal : ℕ → String → AppraisalCache → Option CacheEntry
get_appraisal now id c = elim (get id c.cache) [
  | none ↦ none
  | some entry ↦
      if ltb c.ttl_ms (now - entry.cached_at)
      then some (record entry { stale = true })
      else some (record entry { stale = false })
]

unfoldable pub set_appraisal : ℕ → String → ℕ → AppraisalCache → AppraisalCache
set_appraisal now id value c = record c {
  cache = put id (record { value = value; cached_at = now; stale = false }) c.cache;
}

unfoldable pub invalidate_appraisal : String → AppraisalCache → AppraisalCache
invalidate_appraisal id c = record c { cache = remove id c.cache }

unfoldable pub invalidate_all : AppraisalCache → AppraisalCache
invalidate_all c = record c { cache = [] }

unfoldable pub cache_size : AppraisalCache → ℕ
cache_size c = length c.cache

-- An appraisal that was cached is read back with its value and time, fresh as long as it is no older
-- than the TTL that is configured when it is read, and stale from then on; invalidating another
-- collateral does not touch it, and invalidating its own or all makes the read miss.
pub get_appraisal-set_appraisal :
    (t u ms value : ℕ) (id other : String) (c : AppraisalCache)
    → other ≢ id
    → let c' = configure_cache_ttl ms (set_appraisal t id value c) in
      (get_appraisal u id c'
        ≡ some (record { value = value; cached_at = t; stale = ltb ms (u - t) }))
      × (get_appraisal u id (invalidate_appraisal other c') ≡ get_appraisal u id c')
      × (get_appraisal u id (invalidate_appraisal id c') ≡ none)
      × (get_appraisal u id (invalidate_all c') ≡ none)
unfolding get_appraisal set_appraisal configure_cache_ttl invalidate_appraisal invalidate_all get
get_appraisal-set_appraisal t u ms value id other c ne =
    let entry : CacheEntry = record { value = value; cached_at = t; stale = false } in
    let found = get-put_self id entry c.cache in
    (
      ground (arith, found),
      ground (arith, get-remove_ne other id (put id entry c.cache) ne),
      ground (arith, get-remove_self id (put id entry c.cache)),
      refl,
    )
