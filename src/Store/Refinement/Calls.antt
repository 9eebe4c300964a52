-- ===== src/Store/Refinement/Calls.antt =====
-- backend/src/db/store.ts: a sequence of calls against the tables as functions of the id.
use stellar_kraal.Common.{
  Option-cases, get, ℕ, String, ◌≡◌, refl, ap, ◌∙◌, inl, inr, Option, List, [], ◌∷◌, arith,
}
use stellar_kraal.Store.Records.{Store}
use stellar_kraal.Store.Collateral.{
  get_collateral, insert_collateral, add_appraisal, soft_delete_collateral, restore_collateral,
  CollateralUpdates, update_collateral, new_collateral,
}
use stellar_kraal.Store.Loans.{
  get_loan, insert_loan, restore_loan, soft_delete_loan, LoanUpdates, update_loan, new_loan,
}
use stellar_kraal.Store.Transactions.{
  get_transaction, insert_liquidation_event, insert_transaction, TransactionUpdates,
  update_transaction, new_transaction, new_liquidation_event,
}
use stellar_kraal.Store.Calls.{
  run_calls, run_call, Call, insert_collateral_call, add_appraisal_call, update_collateral_call,
  soft_delete_collateral_call, restore_collateral_call, insert_loan_call, update_loan_call,
  soft_delete_loan_call, restore_loan_call, insert_transaction_call, update_transaction_call,
  insert_liquidation_event_call,
}
use stellar_kraal.Store.Loans.{LoanUpdates}
use stellar_kraal.Store.Collateral.{CollateralUpdates}
use stellar_kraal.Store.Transactions.{TransactionUpdates}
use stellar_kraal.Store.Refinement.{Tables, visible, spec_calls, tables_of, spec_call, set_row}
use stellar_kraal.Store.Refinement.Rows.{
  update_loan-tables, update_collateral-tables, update_transaction-tables, soft_delete_loan-tables,
  soft_delete_collateral-tables, restore_loan-tables, restore_collateral-tables,
  add_appraisal-tables,
}

module _ (s : Store) where
  update_loan_frame :
      (id : String) (u : LoanUpdates)
      → (update_loan id u s).1 ≡ record s { loans = (update_loan id u s).1.loans }
  unfolding update_loan
  update_loan_frame id u = ground (arith, Option-cases (get id s.loans))

  update_collateral_frame :
      (id : String) (u : CollateralUpdates)
      → (update_collateral id u s).1
        ≡ record s { collateral = (update_collateral id u s).1.collateral }
  unfolding update_collateral
  update_collateral_frame id u = ground (arith, Option-cases (get id s.collateral))

  update_transaction_frame :
      (now : ℕ) (id : String) (u : TransactionUpdates)
      → (update_transaction now id u s).1
        ≡ record s { transactions = (update_transaction now id u s).1.transactions }
  unfolding update_transaction
  update_transaction_frame now id u = ground (arith, Option-cases (get id s.transactions))

  soft_delete_loan_frame :
      (now : ℕ) (id : String)
      → (soft_delete_loan now id s).1 ≡ record s { loans = (soft_delete_loan now id s).1.loans }
  unfolding soft_delete_loan
  soft_delete_loan_frame now id = elim (Option-cases (get id s.loans)) [
    | inl e ↦ ground (arith, e)
    | inr (r, e) ↦ ground (arith, e, Option-cases r.deleted_at)
  ]

  soft_delete_collateral_frame :
      (now : ℕ) (id : String)
      → (soft_delete_collateral now id s).1
        ≡ record s { collateral = (soft_delete_collateral now id s).1.collateral }
  unfolding soft_delete_collateral
  soft_delete_collateral_frame now id = elim (Option-cases (get id s.collateral)) [
    | inl e ↦ ground (arith, e)
    | inr (r, e) ↦ ground (arith, e, Option-cases r.deleted_at)
  ]

  restore_loan_frame :
      (id : String) → (restore_loan id s).1 ≡ record s { loans = (restore_loan id s).1.loans }
  unfolding restore_loan
  restore_loan_frame id = elim (Option-cases (get id s.loans)) [
    | inl e ↦ ground (arith, e)
    | inr (r, e) ↦ ground (arith, e, Option-cases r.deleted_at)
  ]

  restore_collateral_frame :
      (id : String)
      → (restore_collateral id s).1
        ≡ record s { collateral = (restore_collateral id s).1.collateral }
  unfolding restore_collateral
  restore_collateral_frame id = elim (Option-cases (get id s.collateral)) [
    | inl e ↦ ground (arith, e)
    | inr (r, e) ↦ ground (arith, e, Option-cases r.deleted_at)
  ]

  add_appraisal_frame :
      (now : ℕ) (id : String) (v : ℕ) (a : Option String)
      → (add_appraisal now id v a s).1
        ≡ record s { collateral = (add_appraisal now id v a s).1.collateral }
  unfolding add_appraisal
  add_appraisal_frame now id v a = elim (Option-cases (get id s.collateral)) [
    | inl e ↦ ground (arith, e)
    | inr (r, e) ↦ ground (arith, e, Option-cases r.deleted_at)
  ]

module _ (s : Store) where
  run_call-spec_call : (c : Call) → tables_of (run_call c s) ≡ spec_call c (tables_of s)
  unfolding run_call spec_call insert_collateral insert_loan insert_transaction
      insert_liquidation_event
  run_call-spec_call (insert_collateral_call now c) =
      ap (λ t. record (tables_of s) { collateral = t })
        (set_row c.id s.collateral (new_collateral now c))
  run_call-spec_call (insert_loan_call now d) =
      ap (λ t. record (tables_of s) { loans = t }) (set_row d.id s.loans (new_loan now d))
  run_call-spec_call (insert_transaction_call now id d) =
      ap (λ t. record (tables_of s) { transactions = t })
        (set_row id s.transactions (new_transaction now id d))
  run_call-spec_call (insert_liquidation_event_call now id d) =
      ap (λ t. record (tables_of s) { liquidation_events = t })
        (set_row id s.liquidation_events (new_liquidation_event now id d))
  run_call-spec_call (update_loan_call id u) =
      ap tables_of (update_loan_frame s id u)
      ∙ ap (λ t. record (tables_of s) { loans = t }) (update_loan-tables s id u)
  run_call-spec_call (update_collateral_call id u) =
      ap tables_of (update_collateral_frame s id u)
      ∙ ap (λ t. record (tables_of s) { collateral = t }) (update_collateral-tables s id u)
  run_call-spec_call (update_transaction_call now id u) =
      ap tables_of (update_transaction_frame s now id u)
      ∙ ap (λ t. record (tables_of s) { transactions = t }) (update_transaction-tables s now id u)
  run_call-spec_call (soft_delete_loan_call now id) =
      ap tables_of (soft_delete_loan_frame s now id)
      ∙ ap (λ t. record (tables_of s) { loans = t }) (soft_delete_loan-tables s now id)
  run_call-spec_call (soft_delete_collateral_call now id) =
      ap tables_of (soft_delete_collateral_frame s now id)
      ∙ ap (λ t. record (tables_of s) { collateral = t }) (soft_delete_collateral-tables s now id)
  run_call-spec_call (restore_loan_call id) =
      ap tables_of (restore_loan_frame s id)
      ∙ ap (λ t. record (tables_of s) { loans = t }) (restore_loan-tables s id)
  run_call-spec_call (restore_collateral_call id) =
      ap tables_of (restore_collateral_frame s id)
      ∙ ap (λ t. record (tables_of s) { collateral = t }) (restore_collateral-tables s id)
  run_call-spec_call (add_appraisal_call now id v a) =
      ap tables_of (add_appraisal_frame s now id v a)
      ∙ ap (λ t. record (tables_of s) { collateral = t }) (add_appraisal-tables s now id v a)

run_calls-spec_calls_tables :
    (cs : List Call) (s : Store) → tables_of (run_calls cs s) ≡ spec_calls cs (tables_of s)
unfolding run_calls spec_calls
run_calls-spec_calls_tables [] s = refl
run_calls-spec_calls_tables (c ∷ cs) s =
    run_calls-spec_calls_tables cs (run_call c s) ∙ ap (spec_calls cs) (run_call-spec_call s c)

-- Any sequence of the store's writing calls does to the tables what the specification says call by
-- call, with the tables as functions of the id: no order of insertion shows. And what a later read of a
-- loan, a collateral or a transaction gives is the specification's row, unless that is deleted.
pub run_calls-spec_calls :
    (cs : List Call) (s : Store) (id : String)
    → let t = spec_calls cs (tables_of s) in
      let s' = run_calls cs s in
      (tables_of s' ≡ t)
      × (get_loan id s' ≡ visible (λ r. r.deleted_at) (t.loans id))
      × (get_collateral id s' ≡ visible (λ r. r.deleted_at) (t.collateral id))
      × (get_transaction id s' ≡ t.transactions id)
unfolding get_loan get_collateral get_transaction
run_calls-spec_calls cs s id =
    let same = run_calls-spec_calls_tables cs s in
    (
      same,
      ap (λ (t : Tables). visible (λ r. r.deleted_at) (t.loans id)) same,
      ap (λ (t : Tables). visible (λ r. r.deleted_at) (t.collateral id)) same,
      ap (λ (t : Tables). t.transactions id) same,
    )
