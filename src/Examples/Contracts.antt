-- ===== src/Examples/Contracts.antt =====
-- The theorems on the contract's calls, the tables and the v1 routes at concrete inputs.
use stellar_kraal.Common.{
  str_eq, if◌then◌else◌, str_eq_iff, get, ℕ, String, ◌≡◌, refl, ◌≢◌, Option, none, some, List, [],
  ◌∷◌, arith,
}
use stellar_kraal.Http.{User, Outcome, resolved, valid}
use stellar_kraal.Store.Loans.{no_loan_updates, get_loan}
use stellar_kraal.Store.Collateral.{get_collateral}
use stellar_kraal.Store.Transactions.{get_transaction}
use stellar_kraal.Store.Calls.{
  Call, soft_delete_loan_call, update_loan_call, restore_loan_call, run_calls,
}
use stellar_kraal.Store.Refinement.{tables_of, spec_calls, visible}
use stellar_kraal.Store.Refinement.Calls.{run_calls-spec_calls}
use stellar_kraal.Contract.{ContractCall, accepts}
use stellar_kraal.Contract.Calls.{requests, contract_call, LoanRequestInput, LoanRepayInput}
use stellar_kraal.Contract.Requests.{is_accepted, accepts-contract_call}
use stellar_kraal.Contract.Repay.{IsRetried, Kept, repay_route, repay_route-IsRetried}
use stellar_kraal.Caches.Idempotency.{get_idempotency_entry}
use stellar_kraal.Routes.Transactions.{TransactionQuery, my_transactions_route}
use stellar_kraal.Routes.Privacy.{IsOwn, my_transactions_route-IsOwn}
use stellar_kraal.Examples.Data.{herd}

abbrev some_calls : List Call
some_calls =
    soft_delete_loan_call 30 "l1"
    ∷ update_loan_call "l1" (record no_loan_updates { amount = some 400 })
    ∷ restore_loan_call "l1"
    ∷ []

run_calls-spec_calls_example :
    let t = spec_calls some_calls (tables_of herd) in
    let s' = run_calls some_calls herd in
    (tables_of s' ≡ t)
    × (get_loan "l1" s' ≡ visible (λ r. r.deleted_at) (t.loans "l1"))
    × (get_collateral "l1" s' ≡ visible (λ r. r.deleted_at) (t.collateral "l1"))
    × (get_transaction "l1" s' ≡ t.transactions "l1")
run_calls-spec_calls_example = run_calls-spec_calls some_calls herd "l1"

abbrev repayment : LoanRepayInput
repayment = record { borrower = "GA"; loan_id = 1; amount = 50 }

abbrev request : LoanRequestInput
request = record {
  borrower = "GA";
  collateral_ids = 1 ∷ 2 ∷ [];
  amount = 500;
  min_disbursement = some 400;
}

abbrev to_number : String → ℕ
to_number t = if str_eq t "1" then 1 else 0

accepts-contract_call_example :
    accepts (contract_call to_number (requests request)) ≡ is_accepted (requests request)
accepts-contract_call_example = accepts-contract_call to_number (requests request)

abbrev build : ContractCall → Outcome String
build c = resolved "XDR"

abbrev no_entries : Kept
no_entries = []

abbrev repay_key : String
repay_key = "k1"

repay_key_given : repay_key ≢ ""
repay_key_given e = ground (arith, (str_eq_iff repay_key "").1 e)

repay_route-IsRetried_example :
    IsRetried 900 "k1" repayment (repay_route 5 9 build (some "k1") (valid repayment) no_entries)
repay_route-IsRetried_example =
    repay_route-IsRetried 5 9 900 build repay_key (valid repayment) repayment no_entries
      repay_key_given (unfold get_idempotency_entry get in refl) (omega arith) (omega arith)

abbrev caller : Option User
caller = some (record { public_key = some "GA"; role = none })

abbrev nosy_query : TransactionQuery
nosy_query = record {
  borrower = some "GB";
  type = some "repayment";
  status = none;
  loan_id = none;
  collateral_id = none;
  start_date = none;
  end_date = none;
  page = none;
  page_size = some (some 100);
}

my_transactions_route-IsOwn_example : IsOwn caller (my_transactions_route caller nosy_query herd)
my_transactions_route-IsOwn_example = my_transactions_route-IsOwn caller nosy_query herd
