-- ===== src/Contract/Requests.antt =====
-- POST /api/loan/request of backend/src/index.ts, before and after the await of the transaction, and
-- POST /api/v1/oracle/price-update; and which of the calls the contract takes.
use stellar_kraal.Common.{
  ltb, Option-cases, is_some, Dict, get, get-put_self, ℕ, ◌-◌, String, ◌≡◌, refl, Bool, true, false,
  not, none, some, arith,
}
use stellar_kraal.Http.{Outcome, resolved, rejected, Reply, reply, throws}
use stellar_kraal.Contract.{ContractCall, accepts}
use stellar_kraal.Contract.Calls.{
  ServerCall, contract_call, registers, requests, requests_single, creates, repays, liquidates_loan,
  liquidates, reads_loan, reads_health_factor, reads_fee_config, reads_fees, SingleRequestInput,
  single_request_call,
}
use stellar_kraal.Caches.Appraisals.{
  AppraisalCache, CacheEntry, get_appraisal, set_appraisal, invalidate_all,
}
use stellar_kraal.Caches.Responses.{CachedBody, invalidate_cache}

-- Before the await: the first appraisal that a body gives is cached. `show` is `String` of an id.
unfoldable pub single_request_begin :
    (ℕ → String) → ℕ → SingleRequestInput → AppraisalCache → (ContractCall × Bool) × AppraisalCache
single_request_begin show now i cache = elim (get_appraisal now (show i.collateral_id) cache) [
  | some entry ↦ ((single_request_call i, entry.stale), cache)
  | none ↦ elim i.appraised_value [
    | none ↦ ((single_request_call i, false), cache)
    | some value ↦
        ((single_request_call i, false), set_appraisal now (show i.collateral_id) value cache)
  ]
]

-- After it: the text, with `stale: true` if the flag is set.
unfoldable pub single_request_finish :
    {B : Type 0}
    → Bool
    → Outcome String
    → Dict (CachedBody B)
    → Reply (String × Bool) × Dict (CachedBody B)
single_request_finish stale (rejected e) responses = (throws e, responses)
single_request_finish stale (resolved xdr) responses =
    (reply 200 (xdr, stale), invalidate_cache "/api/loans" responses)

-- POST /api/v1/oracle/price-update
unfoldable pub price_update_route : AppraisalCache → Reply Bool × AppraisalCache
price_update_route cache = (reply 200 true, invalidate_all cache)

-- Once a request for a collateral without a cached appraisal has brought one, a later request for that
-- collateral builds its own call and says `stale` exactly when the appraisal has outlived the TTL; it
-- keeps the cached value, whatever its own body says. After a price update no request is stale.
pub single_request_begin_stale :
    (show : ℕ → String) (t u v value : ℕ) (i j : SingleRequestInput) (cache : AppraisalCache)
    → get_appraisal t (show i.collateral_id) cache ≡ none
    → i.appraised_value ≡ some value
    → i.collateral_id ≡ j.collateral_id
    → let (first, cache') = single_request_begin show t i cache in
      let (later, cache'') = single_request_begin show u j cache' in
      let (updated, _) = single_request_begin show v j (price_update_route cache'').1 in
      (first.1 ≡ false)
      × (later ≡ (single_request_call j, ltb cache.ttl_ms (u - t)))
      × (get_appraisal u (show j.collateral_id) cache''
          ≡ some (record { value = value; cached_at = t; stale = ltb cache.ttl_ms (u - t) }))
      × (updated.1 ≡ false)
unfolding single_request_begin price_update_route get_appraisal set_appraisal invalidate_all get
single_request_begin_stale show t u v value i j cache miss given_value same =
    let entry : CacheEntry = record { value = value; cached_at = t; stale = false } in
    let stored = get-put_self (show i.collateral_id) entry cache.cache in
    (
      ground (arith, miss, given_value),
      ground (arith, miss, given_value, same, stored),
      ground (arith, miss, given_value, same, stored),
      ground (arith, Option-cases j.appraised_value),
    )

-- The calls of the server that the contract takes: of the requests for a loan only the service's, and that
-- without a minimal disbursement, since the fourth parameter is a duration in ledgers.
abbrev pub is_accepted : ServerCall → Bool
is_accepted (requests i) = not (is_some i.min_disbursement)
is_accepted (requests_single i) = false
is_accepted (creates borrower id amount) = false
is_accepted (liquidates_loan i) = false
is_accepted (reads_fees source) = false
is_accepted _ = true

-- Of all the calls that the server makes, with any arguments, the contract takes exactly the registrations,
-- the repayments, the liquidations by the service, the service's loan requests without a minimal
-- disbursement, and the reads of a loan, of its health factor and by get_fee_config. It takes neither of the
-- loan requests of index.ts, which pass one number or one text where a list of ids is asked for, nor the
-- calls of liquidate_loan and fee_config, which it does not have.
pub accepts-contract_call :
    (to_number : String → ℕ) (c : ServerCall) → accepts (contract_call to_number c) ≡ is_accepted c
unfolding accepts get
accepts-contract_call to_number (registers i) = refl
accepts-contract_call to_number (requests i) = ground (arith, Option-cases i.min_disbursement)
accepts-contract_call to_number (requests_single i) = refl
accepts-contract_call to_number (creates borrower id amount) = refl
accepts-contract_call to_number (repays i) = refl
accepts-contract_call to_number (liquidates_loan i) = refl
accepts-contract_call to_number (liquidates i) = refl
accepts-contract_call to_number (reads_loan source id) = refl
accepts-contract_call to_number (reads_health_factor source id) = refl
accepts-contract_call to_number (reads_fee_config source) = refl
accepts-contract_call to_number (reads_fees source) = refl
