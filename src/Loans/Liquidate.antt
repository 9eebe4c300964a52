-- ===== src/Loans/Liquidate.antt =====
-- `liquidateLoan` in backend/src/services/loanService.ts and its route in
-- backend/src/routes/v1.ts. The handler stops at the await of `buildContractTx`: the checks run on
-- the store before it, the writes on the store after it. Health factors are exact ratios.
pub mod Laws
use stellar_kraal.Common.{
  ◌<>◌, ltb, leb, if◌then◌else◌, get, put, ℕ, zero, suc, ◌*◌, ◌<◌, String, ap, Bool, not, ◌&&◌,
  ◌||◌, Option, none, some,
}
use stellar_kraal.Http.{Outcome, resolved, rejected, Validation, invalid, valid}
use stellar_kraal.Store.Records.{Ratio, LoanRecord, CollateralRecord, Store, liquidation, completed}
use stellar_kraal.Store.Records
use stellar_kraal.Store.Collateral.{get_collateral, no_collateral_updates, update_collateral}
use stellar_kraal.Store.Loans.{get_loan, no_loan_updates, update_loan}
use stellar_kraal.Store.Transactions.{insert_transaction, insert_liquidation_event}

-- `loan_id` is kept as the text that `String(loan_id)` makes of it.
pub record LiquidateInput : Type 0 where
  pub liquidator : String
  pub loan_id : String
  pub repay_amount : ℕ

abbrev pub scale : ℕ
scale = 10000

-- `computeHealthFactor` of backend/src/jobs/healthFactorJob.ts, in basis points
unfoldable pub compute_health_factor : ℕ → ℕ → Option Ratio
compute_health_factor collateral_value outstanding =
    if leb outstanding 0 || leb collateral_value 0
    then none
    else some (record { num = collateral_value * 8000 * scale; den = outstanding * scale })

-- `liquidateLoan`'s own computation of it
unfoldable pub liquidation_health_factor : ℕ → ℕ → Option Ratio
liquidation_health_factor collateral_value amount =
    if ltb 0 amount && ltb 0 collateral_value
    then some (record { num = collateral_value * 8000 * scale; den = amount * scale })
    else none

-- `hf < n` for a whole number `n`
abbrev pub below : ℕ → Ratio → Bool
below n r = ltb r.num (n * r.den)

pub data Check : Type 0 where
  loan_not_found : String → Check
  not_liquidatable : Option Ratio → Check
  eligible : LoanRecord → Option CollateralRecord → Check

abbrev pub value_of : Option CollateralRecord → ℕ
value_of none = 0
value_of (some c) = c.appraised_value

unfoldable pub liquidate_check : LiquidateInput → Store → Check
unfolding liquidation_health_factor
liquidate_check input s = elim (get_loan input.loan_id s) [
  | none ↦ loan_not_found input.loan_id
  | some loan ↦
      let collateral = get_collateral loan.collateral_id s in
      let hf = liquidation_health_factor (value_of collateral) loan.amount in
      elim hf [
        | none ↦ not_liquidatable none
        | some r ↦ if below scale r then eligible loan collateral else not_liquidatable (some r)
      ]
]

-- `if (collateral) updateCollateral(collateral.id, { status: "liquidated" })`
unfoldable pub mark_liquidated : Option CollateralRecord → Store → Store
mark_liquidated none s = s
mark_liquidated (some c) s =
    (update_collateral c.id
      (record no_collateral_updates { status = some Records.CollateralStatus.liquidated }) s).1

-- The four writes, in their order.
unfoldable pub liquidate_commit :
    ℕ
    → String
    → String
    → LiquidateInput
    → LoanRecord
    → Option CollateralRecord
    → Store
    → Option LoanRecord × Store
unfolding mark_liquidated
liquidate_commit now event_id tx_id input loan collateral s =
    let (updated, s1) =
      update_loan loan.id (record no_loan_updates { status = some Records.LoanStatus.liquidated })
        s in
    let (event, s2) =
      insert_liquidation_event now event_id
        (record {
          loan_id = loan.id;
          liquidator = input.liquidator;
          repay_amount = input.repay_amount;
        })
        (mark_liquidated collateral s1) in
    let (transaction, s3) =
      insert_transaction now tx_id
        (record {
          borrower = loan.borrower;
          type = liquidation;
          status = completed;
          amount = input.repay_amount;
          loan_id = some loan.id;
          collateral_id = some loan.collateral_id;
        })
        s2 in
    (updated, s3)

-- What the route answers.
pub data Answer : Type 0 where
  bad_request : Answer
  not_found : String → Answer
  healthy : Option Ratio → Answer
  done : String → Option LoanRecord → Answer
  failed : String → Answer

-- The whole handler when no other request runs during its await.
unfoldable pub liquidate_route :
    ℕ → String → String → Validation LiquidateInput → Outcome String → Store → Answer × Store
unfolding liquidate_check liquidate_commit
liquidate_route now event_id tx_id invalid built s = (bad_request, s)
liquidate_route now event_id tx_id (valid input) built s = elim (liquidate_check input s) [
  | loan_not_found id ↦ (not_found ("Loan " <> id <> " not found"), s)
  | not_liquidatable hf ↦ (healthy hf, s)
  | eligible loan collateral ↦ elim built [
    | rejected e ↦ (failed e, s)
    | resolved xdr ↦
        let (updated, s') = liquidate_commit now event_id tx_id input loan collateral s in
        (done xdr updated, s')
  ]
]
