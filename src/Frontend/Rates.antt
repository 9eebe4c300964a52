-- ===== src/Frontend/Rates.antt =====
-- frontend/src/hooks/useCurrencyConversion.ts: the exchange rates, which all components of the page cache
-- together. `refresh` is cut at its await; rates and amounts are whole numbers here, where the source has
-- doubles.
use stellar_kraal.Common.{
  ltb, if◌then◌else◌, ℕ, zero, suc, ◌+◌, ◌*◌, ◌<◌, String, ◌≡◌, refl, Bool, true, false, not, ◌&&◌,
  Option, none, some, arith,
}
use stellar_kraal.Http.{Outcome, resolved, rejected}

pub data Currency : Type 0 where
  kes ngn ghs usd : Currency

-- `Record<Currency, number>`
pub record RateTable : Type 0 where
  pub kes_rate : ℕ
  pub ngn_rate : ℕ
  pub ghs_rate : ℕ
  pub usd_rate : ℕ

abbrev pub rate_of : Currency → RateTable → ℕ
rate_of kes r = r.kes_rate
rate_of ngn r = r.ngn_rate
rate_of ghs r = r.ghs_rate
rate_of usd r = r.usd_rate

abbrev pub cache_ttl : ℕ
cache_ttl = 300000

abbrev pub stale_ttl : ℕ
stale_ttl = 600000

pub record RateCache : Type 0 where
  pub rates : RateTable
  pub fetched_at : ℕ

-- The module's `cache`, and the state of one component.
pub record Conversion : Type 0 where
  pub cache : Option RateCache
  pub rates : Option RateTable
  pub fetched_at : Option ℕ
  pub loading : Bool
  pub error : Option String

abbrev pub first_conversion : Option RateCache → Conversion
first_conversion cache = record {
  cache = cache;
  rates = elim cache [ none ↦ none | some c ↦ some c.rates ];
  fetched_at = elim cache [ none ↦ none | some c ↦ some c.fetched_at ];
  loading = false;
  error = none;
}

abbrev pub is_fresh : ℕ → RateCache → Bool
is_fresh now c = ltb now (c.fetched_at + cache_ttl)

-- Up to the await: whether the rates are fetched, and the state.
unfoldable pub refresh_begin : ℕ → Bool → Conversion → Bool × Conversion
refresh_begin now force s = elim s.cache [
  | none ↦ (true, record s { loading = true; error = none })
  | some c ↦
      if not force && is_fresh now c
      then (false, record s { rates = some c.rates; fetched_at = some c.fetched_at })
      else (true, record s { loading = true; error = none })
]

-- From the await on; `now` is the time at which the refresh began.
unfoldable pub refresh_finish : ℕ → Outcome RateTable → Conversion → Conversion
refresh_finish now (resolved r) s = record {
  cache = some (record { rates = r; fetched_at = now });
  rates = some r;
  fetched_at = some now;
  loading = false;
  error = s.error;
}
refresh_finish now (rejected e) s = record s { error = some e; loading = false }

unfoldable pub is_stale : ℕ → Conversion → Bool
is_stale now s = elim s.fetched_at [
  | none ↦ false
  | some zero ↦ false
  | some (suc t) ↦ ltb (suc t + stale_ttl) now
]

unfoldable pub convert : ℕ → Currency → Conversion → Option ℕ
convert xlm currency s = elim s.rates [ none ↦ none | some r ↦ some (xlm * rate_of currency r) ]

-- After the rates were fetched, every refresh of the next five minutes that is not forced shows those
-- rates without another fetch, and they do not count as stale; a refresh that fails keeps them too.
pub refresh_begin-refresh_finish :
    (now later : ℕ) (r : RateTable) (e : String) (s : Conversion)
    → later < now + cache_ttl
    → let s' = refresh_finish now (resolved r) s in
      let (fetches, t) = refresh_begin later false s' in
      (fetches ≡ false)
      × (t.rates ≡ some r)
      × (is_stale later t ≡ false)
      × ((refresh_finish later (rejected e) s').rates ≡ some r)
unfolding refresh_begin refresh_finish is_stale
refresh_begin-refresh_finish zero later r e s soon =
    let fresh : ltb later cache_ttl ≡ true = ground (arith, soon) in
    rw fresh (refl, refl, refl, refl)
refresh_begin-refresh_finish (suc t) later r e s soon =
    let fresh : ltb later (suc t + cache_ttl) ≡ true = ground (arith, soon) in
    rw fresh (refl, refl, ground (arith, soon), refl)
