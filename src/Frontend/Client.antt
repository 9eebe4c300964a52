-- ===== src/Frontend/Client.antt =====
-- frontend/src/lib/stellarKraalSdk.ts: the calls of the contract that StellarKraalClient builds.
use stellar_kraal.Common.{get, ℕ, String, ◌≡◌, refl, true, false, List, [], ◌∷◌}
use stellar_kraal.Contract.{ScArg, address, symbol, u32, u64, i128, vec_u64, ContractCall, accepts}

-- `buildTx(sourceAddress, method, args)`
abbrev pub build_tx : String → String → List ScArg → ContractCall
build_tx source method args = record { source = source; method = method; args = args }

abbrev pub build_initialize : String → String → String → String → String → ℕ → ℕ → ContractCall
build_initialize source admin oracle token treasury ltv_bps liquidation_threshold_bps =
    build_tx source "initialize" (
      address admin
      ∷ address oracle
      ∷ address token
      ∷ address treasury
      ∷ u32 ltv_bps
      ∷ u32 liquidation_threshold_bps
      ∷ [])

abbrev pub build_register_livestock : String → String → String → ℕ → ℕ → ContractCall
build_register_livestock source owner animal_type count appraised_value =
    build_tx source "register_livestock"
      (address owner ∷ symbol animal_type ∷ u32 count ∷ i128 appraised_value ∷ [])

abbrev pub build_request_loan : String → String → List ℕ → ℕ → ContractCall
build_request_loan source borrower collateral_ids amount =
    build_tx source "request_loan" (address borrower ∷ vec_u64 collateral_ids ∷ i128 amount ∷ [])

abbrev pub build_repay_loan : String → String → ℕ → ℕ → ContractCall
build_repay_loan source borrower loan_id amount =
    build_tx source "repay_loan" (address borrower ∷ u64 loan_id ∷ i128 amount ∷ [])

abbrev pub build_liquidate : String → String → ℕ → ℕ → ContractCall
build_liquidate source liquidator loan_id repay_amount =
    build_tx source "liquidate" (address liquidator ∷ u64 loan_id ∷ i128 repay_amount ∷ [])

abbrev pub build_update_appraisal : String → String → ℕ → ℕ → ContractCall
build_update_appraisal source owner collateral_id new_value =
    build_tx source "update_appraisal" (address owner ∷ u64 collateral_id ∷ i128 new_value ∷ [])

-- The account of the read-only calls.
abbrev pub zero_account : String
zero_account = "GAAZI4TCR3TY5OJHCTJC2A4QSY6CJWJH5IAJTGKIN2ER7LBNVKOCCWN"

-- `getHealthFactor`, `getLoan`, `getCollateral`, `getAppraisalHistory`
abbrev pub health_factor_call : ℕ → ContractCall
health_factor_call loan_id = build_tx zero_account "health_factor" (u64 loan_id ∷ [])

abbrev pub get_loan_call : ℕ → ContractCall
get_loan_call loan_id = build_tx zero_account "get_loan" (u64 loan_id ∷ [])

abbrev pub get_collateral_call : ℕ → ContractCall
get_collateral_call collateral_id = build_tx zero_account "get_collateral" (u64 collateral_id ∷ [])

abbrev pub get_appraisal_history_call : ℕ → ContractCall
get_appraisal_history_call collateral_id =
    build_tx zero_account "get_appraisal_history" (u64 collateral_id ∷ [])

-- `getFeeConfig`, `getOracles`, `isPaused`
abbrev pub get_fee_config_call : ContractCall
get_fee_config_call = build_tx zero_account "get_fee_config" []

abbrev pub get_oracles_call : ContractCall
get_oracles_call = build_tx zero_account "get_oracles" []

abbrev pub is_paused_call : ContractCall
is_paused_call = build_tx zero_account "is_paused" []

abbrev pub build_pause : String → String → ContractCall
build_pause source admin = build_tx source "pause" (address admin ∷ [])

abbrev pub build_unpause : String → String → ContractCall
build_unpause source admin = build_tx source "unpause" (address admin ∷ [])

abbrev pub build_update_fee_config : String → String → ℕ → ℕ → ContractCall
build_update_fee_config source admin origination_fee_bps interest_fee_bps =
    build_tx source "update_fee_config"
      (address admin ∷ u32 origination_fee_bps ∷ u32 interest_fee_bps ∷ [])

abbrev pub build_set_close_factor : String → String → ℕ → ContractCall
build_set_close_factor source admin close_factor_bps =
    build_tx source "set_close_factor" (address admin ∷ u32 close_factor_bps ∷ [])

-- Of the calls that the client builds, whatever their arguments, the contract takes the argument types
-- of all but two: `initialize` lacks the quorum, and `request_loan` the duration.
pub accepts_client :
    (source a b c d type : String) (ids : List ℕ) (n m : ℕ)
    → (accepts (build_initialize source a b c d n m) ≡ false)
      × (accepts (build_request_loan source a ids n) ≡ false)
      × (accepts (build_register_livestock source a type n m) ≡ true)
      × (accepts (build_repay_loan source a n m) ≡ true)
      × (accepts (build_liquidate source a n m) ≡ true)
      × (accepts (build_update_appraisal source a n m) ≡ true)
      × (accepts (health_factor_call n) ≡ true)
      × (accepts (get_loan_call n) ≡ true)
      × (accepts (get_collateral_call n) ≡ true)
      × (accepts (get_appraisal_history_call n) ≡ true)
      × (accepts get_fee_config_call ≡ true)
      × (accepts get_oracles_call ≡ true)
      × (accepts is_paused_call ≡ true)
      × (accepts (build_pause source a) ≡ true)
      × (accepts (build_unpause source a) ≡ true)
      × (accepts (build_update_fee_config source a n m) ≡ true)
      × (accepts (build_set_close_factor source a n) ≡ true)
unfolding accepts get
accepts_client source a b c d type ids n m = (
  refl, refl, refl, refl, refl, refl, refl, refl, refl, refl, refl, refl, refl, refl, refl, refl,
  refl,
)
