-- ===== src/Examples/Lending.antt =====
-- The theorems on loans at a small set of tables.
use stellar_kraal.Common.{
  if◌then◌else◌, get, put, values, ℕ, ◌+◌, ◌*◌, ◌≤◌, ◌<◌, ◌≡◌, refl, ◌↔◌, none, some, List, [], ◌∷◌,
  arith,
}
use stellar_kraal.Http.{resolved, reply, valid}
use stellar_kraal.Store.Records.{LoanRecord, Store, repayment, liquidation, completed}
use stellar_kraal.Store.Records
use stellar_kraal.Store.Collateral.{get_collateral}
use stellar_kraal.Store.Loans.{get_loan, restore_loan, is_collateral_pledged}
use stellar_kraal.Store.Transactions.{new_transaction, new_liquidation_event}
use stellar_kraal.Loans.Create.{CreateLoanInput, Server, Task, create_begin, create_finish}
use stellar_kraal.Loans.Create.System.{System, begin, finish, Reach, here, next, IsSafe, open_loans}
use stellar_kraal.Loans.Create.Safety.{Reach-single, restore_loan-double_pledge}
use stellar_kraal.Loans.Repay.{repay_amount, filed, repay_amount_lem}
use stellar_kraal.Routes.Collateral.{Site}
use text.Mathlib.Text.{starts_with}
use stellar_kraal.Loans.State
use stellar_kraal.Loans.State.{drive, IsChain, drive-IsChain, final_forever, TransitionRecord}
use stellar_kraal.Loans.Liquidate.{
  LiquidateInput, eligible, done, liquidate_check, liquidation_health_factor, liquidate_route,
  value_of,
}
use stellar_kraal.Loans.Liquidate.Laws.{liquidate_check-eligible, liquidate_route-done}
use stellar_kraal.Examples.Data.{cow, herd_loan, old_loan, herd}

-- A server whose one collateral backs no loan.
abbrev pub idle : Server
idle = record { store = record herd { loans = [] }; pending_pledges = [] }

abbrev pub request : CreateLoanInput
request = record { borrower_address = "GA"; collateral_id = "c1"; requested_amount = 5000 }

abbrev pub begun : Task
begun = record { borrower_address = "GA"; collateral_id = "c1"; loan_amount = 800 }

abbrev pub reserved : Server
reserved = record idle { pending_pledges = "c1" ∷ [] }

abbrev pub start : System
start = record { server = idle; waiting = [] }

-- The system after one creation on the collateral.
abbrev pub lent : System
lent = record { server = (create_finish 50 "l9" begun (resolved "xdr") reserved).1; waiting = [] }

start-IsSafe : IsSafe start
unfolding values
start-IsSafe = record { single = λ c. omega arith; reserved = λ c. refl }

start-lent : Reach start lent
unfolding create_begin get_collateral get is_collateral_pledged values
start-lent =
    next (next here (begin request none idle reserved begun [] refl))
      (finish 50 "l9" (resolved "xdr") reserved [] [] begun refl)

Reach-single_example : open_loans "c1" lent.server ≤ 1
Reach-single_example = Reach-single start lent "c1" start-IsSafe start-lent

restore_loan-double_pledge_example :
    open_loans "c1" (record { store = (restore_loan "l0" herd).1; pending_pledges = [] }) ≡ 2
unfolding get values
restore_loan-double_pledge_example =
    restore_loan-double_pledge "l0" "c1" (record { store = herd; pending_pledges = [] }) old_loan
      refl refl refl refl refl

abbrev cached_loans : Site ℕ
cached_loans = record {
  store = herd;
  responses = ("/api/loans?::GA", record { body = 7; cached_at = 50 }) ∷ [];
}

repay_amount_lem_example :
    let loan' : LoanRecord = record herd_loan { amount = 500 } in
    let (answer, site') = repay_amount 60 "t1" "l1" 400 cached_loans in
    (answer ≡ reply 200 (some loan'))
    × (500 + 400 ≡ 900)
    × (get_loan "l1" site'.store ≡ some loan')
    × (site'.store ≡ record herd {
      loans = put "l1" loan' herd.loans;
      transactions = put "t1" (filed herd_loan 400 60 "t1") herd.transactions;
    })
    × (get "/api/loans?::GA" site'.responses ≡ (
        if starts_with "/api/loans?::GA" "/api/loans"
        then none
        else get "/api/loans?::GA" cached_loans.responses))
unfolding get_loan get
repay_amount_lem_example =
    repay_amount_lem 60 "t1" "l1" "/api/loans?::GA" 400 cached_loans herd_loan refl (omega arith)

abbrev pub seizure : LiquidateInput
seizure = record { liquidator = "GL"; loan_id = "l1"; repay_amount = 900 }

herd_eligible : liquidate_check seizure herd ≡ eligible herd_loan (some cow)
unfolding liquidate_check liquidation_health_factor get_loan get_collateral get
herd_eligible = refl

liquidate_check-eligible_example :
    (liquidate_check seizure herd ≡ eligible herd_loan (get_collateral "c1" herd)) ↔ (
      (0 < 900)
      × (0 < value_of (get_collateral "c1" herd))
      × (value_of (get_collateral "c1" herd) * 8000 < 900 * 10000))
unfolding get_loan get
liquidate_check-eligible_example = liquidate_check-eligible seizure herd herd_loan refl

liquidate_route-done_example :
    let loan' : LoanRecord = record herd_loan { status = some Records.LoanStatus.liquidated } in
    let (answer, s') = liquidate_route 70 "e1" "t1" (valid seizure) (resolved "xdr") herd in
    (answer ≡ done "xdr" (some loan'))
    × (get_loan "l1" s' ≡ some loan')
    × (get_collateral "c1" s'
        ≡ some (record cow { status = some Records.CollateralStatus.liquidated }))
    × (get "e1" s'.liquidation_events
        ≡ some (
            new_liquidation_event 70 "e1"
              (record { loan_id = "l1"; liquidator = "GL"; repay_amount = 900 })))
    × (get "t1" s'.transactions
        ≡ some (
            new_transaction 70 "t1" (record {
              borrower = "GA";
              type = liquidation;
              status = completed;
              amount = 900;
              loan_id = some "l1";
              collateral_id = some "c1";
            })))
unfolding get_loan get_collateral get
liquidate_route-done_example =
    liquidate_route-done 70 "e1" "t1" "xdr" seizure herd herd_loan cow refl refl refl refl
      herd_eligible

abbrev pub requests : List (ℕ × State.LoanStatus)
requests =
    (1, State.LoanStatus.active) ∷ (2, State.LoanStatus.pending) ∷ (3, State.LoanStatus.repaid) ∷ []
