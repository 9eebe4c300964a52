-- ===== src/Loans/Liquidate/Laws.antt =====
-- backend/src/services/loanService.ts: when a loan can be liquidated, and what a liquidation writes.
use stellar_kraal.Common.{
  get, put, get-put_self, ℕ, ◌*◌, ◌<◌, String, ◌≡◌, refl, sym, subst, ◌↔◌, Bool, true, false, some,
  arith,
}
use stellar_kraal.Http.{Outcome, resolved, Validation, invalid, valid}
use stellar_kraal.Store.Records.{Ratio, LoanRecord, CollateralRecord, Store, liquidation, completed}
use stellar_kraal.Store.Records
use stellar_kraal.Store.Collateral.{get_collateral, update_collateral}
use stellar_kraal.Store.Loans.{get_loan, update_loan}
use stellar_kraal.Store.Transactions.{
  insert_transaction, insert_liquidation_event, new_transaction, new_liquidation_event,
}
use stellar_kraal.Store.SoftDelete.{get_loan-eq-some, get_collateral-eq-some}
use stellar_kraal.Loans.Liquidate.{
  LiquidateInput, Answer, compute_health_factor, liquidation_health_factor, eligible, value_of,
  liquidate_check, liquidate_commit, done, liquidate_route, scale,
}

-- The health job and the liquidation compute the same health factor.
pub liquidation_health_factor-eq :
    (v a : ℕ) → liquidation_health_factor v a ≡ compute_health_factor v a
unfolding liquidation_health_factor compute_health_factor
liquidation_health_factor-eq v a = ground arith

below_scale : (v a : ℕ) → (v * 8000 * scale < scale * (a * scale)) ↔ (v * 8000 < a * 10000)
below_scale v a = (λ h. omega arith, λ h. omega arith)

-- A visible loan is eligible for liquidation exactly if it has a balance and a visible collateral
-- of some value, and 80% of that value is less than the balance. Its status is not looked at.
pub liquidate_check-eligible :
    (input : LiquidateInput) (s : Store) (loan : LoanRecord)
    → get_loan input.loan_id s ≡ some loan
    → let c = get_collateral loan.collateral_id s in
      (liquidate_check input s ≡ eligible loan c)
      ↔ ((0 < loan.amount) × (0 < value_of c) × (value_of c * 8000 < loan.amount * 10000))
unfolding liquidate_check
liquidate_check-eligible input s loan e =
    let v = value_of (get_collateral loan.collateral_id s) in
    let a = loan.amount in
    let scaled = below_scale v a in
    (
      λ h. (ground (arith, e), ground (arith, e), scaled.0 (ground (arith, e))),
      λ h. ground (arith, e, scaled.1 h.2),
    )

abbrev pub is_done : Answer → Bool
is_done (done xdr updated) = true
is_done _ = false

-- Whenever the route does not answer with a transaction, the tables are as they were.
pub liquidate_route-atomic :
    (now : ℕ) (event_id tx_id : String) (v : Validation LiquidateInput) (built : Outcome String)
    (s : Store)
    → is_done (liquidate_route now event_id tx_id v built s).0 ≡ false
    → (liquidate_route now event_id tx_id v built s).1 ≡ s
unfolding liquidate_route
liquidate_route-atomic now event_id tx_id invalid built s h = refl
liquidate_route-atomic now event_id tx_id (valid input) built s h = ground arith

-- What an eligible liquidation writes, whose transaction could be built, of a loan and a collateral
-- that are filed under their own ids: the loan and the collateral become liquidated and keep all
-- else, the liquidation event and the completed transaction are filed with the repaid amount, and
-- the loan remains visible.
pub liquidate_route-done :
    (now : ℕ) (event_id tx_id xdr : String) (input : LiquidateInput) (s : Store) (loan : LoanRecord)
    (c : CollateralRecord)
    → get_loan input.loan_id s ≡ some loan
    → loan.id ≡ input.loan_id
    → get_collateral loan.collateral_id s ≡ some c
    → c.id ≡ loan.collateral_id
    → liquidate_check input s ≡ eligible loan (some c)
    → let loan' : LoanRecord = record loan { status = some Records.LoanStatus.liquidated } in
      let (answer, s') = liquidate_route now event_id tx_id (valid input) (resolved xdr) s in
      (answer ≡ done xdr (some loan'))
      × (get_loan input.loan_id s' ≡ some loan')
      × (get_collateral loan.collateral_id s'
          ≡ some (record c { status = some Records.CollateralStatus.liquidated }))
      × (get event_id s'.liquidation_events
          ≡ some (
              new_liquidation_event now event_id (record {
                loan_id = loan.id;
                liquidator = input.liquidator;
                repay_amount = input.repay_amount;
              })))
      × (get tx_id s'.transactions
          ≡ some (
              new_transaction now tx_id (record {
                borrower = loan.borrower;
                type = liquidation;
                status = completed;
                amount = input.repay_amount;
                loan_id = some loan.id;
                collateral_id = some loan.collateral_id;
              })))
unfolding liquidate_route liquidate_commit get_loan get_collateral update_loan update_collateral
    insert_liquidation_event insert_transaction
liquidate_route-done now event_id tx_id xdr input s loan c e own ec own_c ok =
    let (row, live) = get_loan-eq-some input.loan_id s loan e in
    let (row_c, live_c) = get_collateral-eq-some loan.collateral_id s c ec in
    let loan' : LoanRecord = record loan { status = some Records.LoanStatus.liquidated } in
    let c' : CollateralRecord = record c { status = some Records.CollateralStatus.liquidated } in
    let row' : get loan.id s.loans ≡ some loan =
      subst (λ k. get k s.loans ≡ some loan) (sym own) row in
    let row_c' : get c.id s.collateral ≡ some c =
      subst (λ k. get k s.collateral ≡ some c) (sym own_c) row_c in
    let stored : get input.loan_id (put loan.id loan' s.loans) ≡ some loan' =
      subst (λ k. get input.loan_id (put k loan' s.loans) ≡ some loan') (sym own)
        (get-put_self input.loan_id loan' s.loans) in
    let stored_c : get loan.collateral_id (put c.id c' s.collateral) ≡ some c' =
      subst (λ k. get loan.collateral_id (put k c' s.collateral) ≡ some c') (sym own_c)
        (get-put_self loan.collateral_id c' s.collateral) in
    (
      ground (arith, ok),
      ground (arith, ok, stored),
      ground (arith, ok, stored_c),
      ground (
        arith,
        ok,
        get-put_self event_id
            (new_liquidation_event now event_id (record {
              loan_id = loan.id;
              liquidator = input.liquidator;
              repay_amount = input.repay_amount;
            }))
            s.liquidation_events,
      ),
      ground (
        arith,
        ok,
        get-put_self tx_id
            (new_transaction now tx_id (record {
              borrower = loan.borrower;
              type = liquidation;
              status = completed;
              amount = input.repay_amount;
              loan_id = some loan.id;
              collateral_id = some loan.collateral_id;
            }))
            s.transactions,
      ),
    )

-- A loan that has just been liquidated is eligible for liquidation again, since the checks look
-- neither at its status nor at that of its collateral.
pub liquidate_twice :
    (now : ℕ) (event_id tx_id xdr : String) (input : LiquidateInput) (s : Store) (loan : LoanRecord)
    (c : CollateralRecord)
    → get_loan input.loan_id s ≡ some loan
    → loan.id ≡ input.loan_id
    → get_collateral loan.collateral_id s ≡ some c
    → c.id ≡ loan.collateral_id
    → liquidate_check input s ≡ eligible loan (some c)
    → liquidate_check input (liquidate_route now event_id tx_id (valid input) (resolved xdr) s).1
      ≡ eligible
          (record loan { status = some Records.LoanStatus.liquidated })
          (some (record c { status = some Records.CollateralStatus.liquidated }))
liquidate_twice now event_id tx_id xdr input s loan c e own ec own_c ok =
    let (_, found, found_c, _, _) =
      liquidate_route-done now event_id tx_id xdr input s loan c e own ec own_c ok in
    let s' = (liquidate_route now event_id tx_id (valid input) (resolved xdr) s).1 in
    let needs : (0 < loan.amount)
        × (0 < c.appraised_value)
        × (c.appraised_value * 8000 < loan.amount * 10000) =
      rw ec at ((liquidate_check-eligible input s loan e).0 (rw ec ok)) in
    rw found_c at ((liquidate_check-eligible input s' _ found).1 (rw found_c needs))
