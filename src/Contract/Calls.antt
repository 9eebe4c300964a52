-- ===== src/Contract/Calls.antt =====
-- The calls of the contract that the routes and the services make: POST /api/collateral/register,
-- /api/loan/request and /api/loan/liquidate of backend/src/index.ts, registerCollateral,
-- batchRegisterCollateral, requestLoan and repayLoan of backend/src/services, and their v1 routes.
use stellar_kraal.Common.{ℕ, String, Option, none, some, List, [], ◌∷◌}
use stellar_kraal.Http.{
  Outcome, resolved, rejected, Validation, invalid, valid, Reply, reply, refuse, throws,
}
use stellar_kraal.Contract.{
  ScArg, address, symbol, string, u32, u64, i128, vec_u64, void, ContractCall,
}
use stellar_kraal.Loans.Liquidate.{LiquidateInput}

pub record RegisterInput : Type 0 where
  pub owner : String
  pub animal_type : String
  pub count : ℕ
  pub appraised_value : ℕ

abbrev pub register_livestock_call : RegisterInput → ContractCall
register_livestock_call i = record {
  source = i.owner;
  method = "register_livestock";
  args = address i.owner ∷ symbol i.animal_type ∷ u32 i.count ∷ i128 i.appraised_value ∷ [];
}

-- `LoanRequestInput` of the service.
pub record LoanRequestInput : Type 0 where
  pub borrower : String
  pub collateral_ids : List ℕ
  pub amount : ℕ
  pub min_disbursement : Option ℕ

abbrev pub min_disbursement_arg : Option ℕ → ScArg
min_disbursement_arg none = void
min_disbursement_arg (some n) = i128 n

abbrev pub request_loan_call : LoanRequestInput → ContractCall
request_loan_call i = record {
  source = i.borrower;
  method = "request_loan";
  args =
      address i.borrower
      ∷ vec_u64 i.collateral_ids
      ∷ i128 i.amount
      ∷ min_disbursement_arg i.min_disbursement
      ∷ [];
}

-- `validation.data` of the route of index.ts, with the body's `appraised_value`.
pub record SingleRequestInput : Type 0 where
  pub borrower : String
  pub collateral_id : ℕ
  pub amount : ℕ
  pub min_disbursement : Option ℕ
  pub appraised_value : Option ℕ

abbrev pub single_request_call : SingleRequestInput → ContractCall
single_request_call i = record {
  source = i.borrower;
  method = "request_loan";
  args =
      address i.borrower
      ∷ u64 i.collateral_id
      ∷ i128 i.amount
      ∷ min_disbursement_arg i.min_disbursement
      ∷ [];
}

-- `borrower`, `loan_id` and `amount`, of a repayment and of the liquidation of index.ts.
pub record LoanRepayInput : Type 0 where
  pub borrower : String
  pub loan_id : ℕ
  pub amount : ℕ

abbrev pub repay_loan_call : LoanRepayInput → ContractCall
repay_loan_call i = record {
  source = i.borrower;
  method = "repay_loan";
  args = address i.borrower ∷ u64 i.loan_id ∷ i128 i.amount ∷ [];
}

abbrev pub liquidate_loan_call : LoanRepayInput → ContractCall
liquidate_loan_call i = record {
  source = i.borrower;
  method = "liquidate_loan";
  args = address i.borrower ∷ u64 i.loan_id ∷ i128 i.amount ∷ [];
}

-- The call of `liquidateLoan`; `to_number` reads the text of the id back.
abbrev pub liquidate_call : (String → ℕ) → LiquidateInput → ContractCall
liquidate_call to_number i = record {
  source = i.liquidator;
  method = "liquidate";
  args = address i.liquidator ∷ u64 (to_number i.loan_id) ∷ i128 i.repay_amount ∷ [];
}

-- POST /api/loan/create of index.ts: the id of the collateral is a text there.
abbrev pub create_loan_call : String → String → ℕ → ContractCall
create_loan_call borrower collateral_id loan_amount = record {
  source = borrower;
  method = "request_loan";
  args = address borrower ∷ string collateral_id ∷ i128 loan_amount ∷ [];
}

-- A call that is only simulated, from a fixed account.
abbrev pub read_call : String → String → List ScArg → ContractCall
read_call source method args = record { source = source; method = method; args = args }

-- The places of the server that call the contract, with what they call it with: the transactions, and the
-- reads of a loan, of its health factor and of the fees.
pub data ServerCall : Type 0 where
  registers : RegisterInput → ServerCall
  requests : LoanRequestInput → ServerCall
  requests_single : SingleRequestInput → ServerCall
  creates : String → String → ℕ → ServerCall
  repays liquidates_loan : LoanRepayInput → ServerCall
  liquidates : LiquidateInput → ServerCall
  reads_loan reads_health_factor : String → ℕ → ServerCall
  reads_fee_config reads_fees : String → ServerCall

abbrev pub contract_call : (String → ℕ) → ServerCall → ContractCall
contract_call to_number (registers i) = register_livestock_call i
contract_call to_number (requests i) = request_loan_call i
contract_call to_number (requests_single i) = single_request_call i
contract_call to_number (creates borrower id amount) = create_loan_call borrower id amount
contract_call to_number (repays i) = repay_loan_call i
contract_call to_number (liquidates_loan i) = liquidate_loan_call i
contract_call to_number (liquidates i) = liquidate_call to_number i
contract_call to_number (reads_loan source id) = read_call source "get_loan" (u64 id ∷ [])
contract_call to_number (reads_health_factor source id) =
    read_call source "health_factor" (u64 id ∷ [])
contract_call to_number (reads_fee_config source) = read_call source "get_fee_config" []
contract_call to_number (reads_fees source) = read_call source "fee_config" []

-- `fireWebhooks(event, payload)`
pub data Fired : Type 0 where
  loan_approved : String → List ℕ → ℕ → Fired
  loan_repaid : String → ℕ → ℕ → Fired
  loan_liquidated : String → ℕ → ℕ → Fired

-- An `asyncHandler` that answers what the build gives, and fires when it succeeds.
abbrev pub answer_built : List Fired → Outcome String → Reply String × List Fired
answer_built fired (resolved xdr) = (reply 200 xdr, fired)
answer_built fired (rejected e) = (throws e, [])

module _ (build : ContractCall → Outcome String) where
  unfoldable pub register_collateral : RegisterInput → Outcome String
  register_collateral i = build (register_livestock_call i)

  unfoldable pub register_collateral_handler : Validation RegisterInput → Reply String × List Fired
  unfolding register_collateral
  register_collateral_handler invalid = (refuse 400 "Validation failed", [])
  register_collateral_handler (valid i) = answer_built [] (register_collateral i)

  -- `Promise.all`: the texts in input order, or an error that `first` picks among them, the earliest.
  unfoldable pub batch_register_collateral :
      (String → List String → String) → List RegisterInput → Outcome (List String)
  unfolding register_collateral
  batch_register_collateral first [] = resolved []
  batch_register_collateral first (i ∷ is) = elim (register_collateral i) [
    | resolved xdr ↦ elim (batch_register_collateral first is) [
      | resolved xdrs ↦ resolved (xdr ∷ xdrs)
      | rejected e ↦ rejected e
    ]
    | rejected e ↦ rejected (first e (errors is))
  ]
    where
      errors : List RegisterInput → List String
      errors [] = []
      errors (j ∷ js) = elim (build (register_livestock_call j)) [
        | resolved xdr ↦ errors js
        | rejected e ↦ e ∷ errors js
      ]

  unfoldable pub request_loan_handler : Validation LoanRequestInput → Reply String × List Fired
  request_loan_handler invalid = (refuse 400 "Validation failed", [])
  request_loan_handler (valid i) =
      answer_built (loan_approved i.borrower i.collateral_ids i.amount ∷ [])
        (build (request_loan_call i))

  unfoldable pub repay_loan_handler : Validation LoanRepayInput → Reply String × List Fired
  repay_loan_handler invalid = (refuse 400 "Validation failed", [])
  repay_loan_handler (valid i) =
      answer_built (loan_repaid i.borrower i.loan_id i.amount ∷ []) (build (repay_loan_call i))

  unfoldable pub liquidate_loan_handler : Validation LoanRepayInput → Reply String × List Fired
  liquidate_loan_handler invalid = (refuse 400 "Validation failed", [])
  liquidate_loan_handler (valid i) =
      answer_built (loan_liquidated i.borrower i.loan_id i.amount ∷ [])
        (build (liquidate_loan_call i))
