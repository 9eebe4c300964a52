-- ===== src/Contract.antt =====
-- The calls of the Stellar contract: buildContractTx of backend/src/index.ts and of
-- backend/src/services/contractTx.ts, mapSorobanError of backend/src/utils/sorobanErrors.ts, and what
-- contracts/stellarkraal/src/lib.rs takes. The SDK and the RPC server are functions.
pub mod Calls
pub mod Requests
pub mod Repay
pub mod Reads
use stellar_kraal.Common.{
  ◌<>◌, Dict, get, ℕ, zero, suc, ◌-◌, ◌%◌, ◌<◌, max, String, sym, ap, Bool, true, false, not, ◌&&◌,
  Option, none, some, List, [], ◌∷◌, map,
}
use stellar_kraal.Http.{Outcome, resolved, rejected}

-- What `nativeToScVal`, `Address.toScVal`, `scvVec` and `scvVoid` make; the ranges of the numbers are
-- the schemas' matter.
pub data ScArg : Type 0 where
  address symbol string : String → ScArg
  u32 u64 i128 : ℕ → ScArg
  vec_u64 : List ℕ → ScArg
  void : ScArg

pub record ContractCall : Type 0 where
  pub source : String
  pub method : String
  pub args : List ScArg

-- The types of the parameters in lib.rs.
pub data Param : Type 0 where
  address_param symbol_param u32_param u64_param i128_param vec_u64_param option_u64_param : Param

-- A missing `Option` is the void value.
abbrev pub fits : Param → ScArg → Bool
fits address_param (address a) = true
fits symbol_param (symbol s) = true
fits u32_param (u32 n) = true
fits u64_param (u64 n) = true
fits i128_param (i128 n) = true
fits vec_u64_param (vec_u64 ns) = true
fits option_u64_param (u64 n) = true
fits option_u64_param void = true
fits _ _ = false

abbrev pub fit : List Param → List ScArg → Bool
fit [] [] = true
fit (p ∷ ps) (a ∷ args) = fits p a && fit ps args
fit _ _ = false

abbrev pub initialize_params : List Param
initialize_params =
    address_param ∷ address_param ∷ address_param ∷ address_param ∷ u32_param ∷ u32_param
    ∷ u32_param ∷ []

abbrev pub register_livestock_params : List Param
register_livestock_params = address_param ∷ symbol_param ∷ u32_param ∷ i128_param ∷ []

abbrev pub request_loan_params : List Param
request_loan_params = address_param ∷ vec_u64_param ∷ i128_param ∷ option_u64_param ∷ []

abbrev pub repay_loan_params : List Param
repay_loan_params = address_param ∷ u64_param ∷ i128_param ∷ []

abbrev pub liquidate_params : List Param
liquidate_params = address_param ∷ u64_param ∷ i128_param ∷ []

-- The functions of the contract that the server and the browser's client call.
abbrev pub contract_functions : Dict (List Param)
contract_functions =
    ("initialize", initialize_params)
    ∷ ("is_paused", [])
    ∷ ("pause", address_param ∷ [])
    ∷ ("unpause", address_param ∷ [])
    ∷ ("register_livestock", register_livestock_params)
    ∷ ("request_loan", request_loan_params)
    ∷ ("repay_loan", repay_loan_params)
    ∷ ("liquidate", liquidate_params)
    ∷ ("set_close_factor", address_param ∷ u32_param ∷ [])
    ∷ ("health_factor", u64_param ∷ [])
    ∷ ("update_appraisal", address_param ∷ u64_param ∷ i128_param ∷ [])
    ∷ ("get_appraisal_history", u64_param ∷ [])
    ∷ ("get_loan", u64_param ∷ [])
    ∷ ("get_collateral", u64_param ∷ [])
    ∷ ("update_fee_config", address_param ∷ u32_param ∷ u32_param ∷ [])
    ∷ ("get_fee_config", [])
    ∷ ("get_oracles", [])
    ∷ []

-- Whether the contract has the function and takes the arguments.
unfoldable pub accepts : ContractCall → Bool
accepts c = elim (get c.method contract_functions) [ none ↦ false | some ps ↦ fit ps c.args ]

-- `SOROBAN_ERROR_MESSAGES`, from 1 on.
abbrev pub soroban_error_messages : List String
soroban_error_messages =
    "Contract is not initialized" ∷ "Contract is already initialized"
    ∷ "Unauthorized: caller does not have the required permissions"
    ∷ "Insufficient collateral: loan amount exceeds the maximum allowed by the LTV ratio"
    ∷ "Loan not found" ∷ "Collateral not found"
    ∷ "Health factor is safe: loan is not eligible for liquidation"
    ∷ "Invalid amount: value must be positive and must not cause overflow"
    ∷ "Loan is already closed" ∷ "Invalid fee rate: rate exceeds the protocol maximum of 5%"
    ∷ "Exceeds close factor: repay amount is above the close-factor cap"
    ∷ "Invalid close factor: value must be between 1 and 10 000 bps"
    ∷ "Contract is paused — new operations are temporarily disabled"
    ∷ "Oracle is already registered"
    ∷ "Oracle limit reached: maximum number of oracles has been registered" ∷ "Oracle not found"
    ∷ "Insufficient oracle quorum: not enough valid price submissions"
    ∷ "Invalid price: price value is out of bounds or otherwise invalid" ∷ "Contract is not paused"
    ∷ []

abbrev pub nth : ℕ → List String → Option String
nth n [] = none
nth zero (x ∷ xs) = some x
nth (suc n) (x ∷ xs) = nth n xs

abbrev pub soroban_error_message : ℕ → Option String
soroban_error_message zero = none
soroban_error_message (suc n) = nth n soroban_error_messages

-- `match` is the number that the regular expression finds, `show` its text.
unfoldable pub map_soroban_error : (String → Option ℕ) → (ℕ → String) → String → String
map_soroban_error match show message = elim (match message) [
  | none ↦ message
  | some code ↦ given_text (soroban_error_message code) ("Contract error code " <> show code)
]
  where
    given_text : Option String → String → String
    given_text none t = t
    given_text (some s) t = s

-- The RPC client and the SDK's transactions.
pub record Rpc (A T P : Type 0) : Type 0 where
  pub get_account : String → Outcome A
  pub new_transaction : A → ContractCall → Outcome T
  pub prepare_transaction : T → Outcome P
  pub to_xdr : P → String

module _ {A T P : Type 0} (rpc : Rpc A T P) where
  -- backend/src/services/contractTx.ts
  unfoldable pub build_contract_tx : ContractCall → Outcome String
  build_contract_tx c = elim (rpc.get_account c.source) [
    | rejected e ↦ rejected e
    | resolved account ↦ elim (rpc.new_transaction account c) [
      | rejected e ↦ rejected e
      | resolved tx ↦ elim (rpc.prepare_transaction tx) [
        | rejected e ↦ rejected e
        | resolved prepared ↦ resolved (rpc.to_xdr prepared)
      ]
    ]
  ]

  -- backend/src/index.ts, where the errors of the preparation are put in words.
  unfoldable pub build_contract_tx_mapped :
      (String → Option ℕ) → (ℕ → String) → ContractCall → Outcome String
  unfolding map_soroban_error
  build_contract_tx_mapped match show c = elim (rpc.get_account c.source) [
    | rejected e ↦ rejected e
    | resolved account ↦ elim (rpc.new_transaction account c) [
      | rejected e ↦ rejected e
      | resolved tx ↦ elim (rpc.prepare_transaction tx) [
        | rejected e ↦ rejected (map_soroban_error match show e)
        | resolved prepared ↦ resolved (rpc.to_xdr prepared)
      ]
    ]
  ]
