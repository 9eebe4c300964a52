-- ===== src/Store/Keyed.antt =====
-- backend/src/db/store.ts: the tables under any sequence of calls.
use stellar_kraal.Common.{
  Bool-cases, Option-cases, is_some, get, put, get-put, Entries-put, ℕ, String, ◌≡◌, refl, ◌∙◌, ◌≢◌,
  inl, inr, Option, none, some, List, [], ◌∷◌, arith,
}
use stellar_kraal.Store.Records.{CollateralRecord, LoanRecord, TransactionRecord, Store}
use stellar_kraal.Store.Collateral.{
  CollateralUpdates, insert_collateral, add_appraisal, update_collateral, soft_delete_collateral,
  restore_collateral,
}
use stellar_kraal.Store.Loans.{
  LoanUpdates, insert_loan, update_loan, soft_delete_loan, restore_loan,
}
use stellar_kraal.Store.Transactions.{
  TransactionUpdates, insert_transaction, update_transaction, insert_liquidation_event,
}
use stellar_kraal.Store.Calls.{
  Call, insert_collateral_call, add_appraisal_call, update_collateral_call,
  soft_delete_collateral_call, restore_collateral_call, insert_loan_call, update_loan_call,
  soft_delete_loan_call, restore_loan_call, insert_transaction_call, update_transaction_call,
  insert_liquidation_event_call, run_call, run_calls, IsKeyed, Entries-get,
}

module _ (s : Store) (h : IsKeyed s) where
  -- A row written over a row keeps its id, so the table stays keyed.
  collateral_row :
      (id : String) (r r' : CollateralRecord)
      → get id s.collateral ≡ some r
      → r'.id ≡ r.id
      → IsKeyed (record s { collateral = put id r' s.collateral })
  collateral_row id r r' e same =
      let old : r.id ≡ id =
        Entries-get (λ k (x : CollateralRecord). x.id ≡ k) id r s.collateral h.collateral e in
      record {
        collateral =
            Entries-put (λ k (x : CollateralRecord). x.id ≡ k) id r' s.collateral h.collateral
              (same ∙ old);
        loans = h.loans;
        transactions = h.transactions;
        liquidation_events = h.liquidation_events;
      }

  loan_row :
      (id : String) (r r' : LoanRecord)
      → get id s.loans ≡ some r
      → r'.id ≡ r.id
      → IsKeyed (record s { loans = put id r' s.loans })
  loan_row id r r' e same =
      let old : r.id ≡ id = Entries-get (λ k (x : LoanRecord). x.id ≡ k) id r s.loans h.loans e in
      record {
        collateral = h.collateral;
        loans = Entries-put (λ k (x : LoanRecord). x.id ≡ k) id r' s.loans h.loans (same ∙ old);
        transactions = h.transactions;
        liquidation_events = h.liquidation_events;
      }

  transaction_row :
      (id : String) (r r' : TransactionRecord)
      → get id s.transactions ≡ some r
      → r'.id ≡ r.id
      → IsKeyed (record s { transactions = put id r' s.transactions })
  transaction_row id r r' e same =
      let old : r.id ≡ id =
        Entries-get (λ k (x : TransactionRecord). x.id ≡ k) id r s.transactions h.transactions e in
      record {
        collateral = h.collateral;
        loans = h.loans;
        transactions =
            Entries-put (λ k (x : TransactionRecord). x.id ≡ k) id r' s.transactions h.transactions
              (same ∙ old);
        liquidation_events = h.liquidation_events;
      }

  update_collateral-IsKeyed :
      (id : String) (u : CollateralUpdates) → IsKeyed (update_collateral id u s).1
  unfolding update_collateral
  update_collateral-IsKeyed id u = elim (Option-cases (get id s.collateral)) [
    | inl e ↦ rw (e, update_collateral) h
    | inr (r, e) ↦ rw (e, update_collateral) (collateral_row id r _ e refl)
  ]

  add_appraisal-IsKeyed :
      (now : ℕ) (id : String) (v : ℕ) (a : Option String) → IsKeyed (add_appraisal now id v a s).1
  unfolding add_appraisal
  add_appraisal-IsKeyed now id v a = elim (Option-cases (get id s.collateral)) [
    | inl e ↦ rw (e, add_appraisal) h
    | inr (r, e) ↦ elim (Bool-cases (is_some r.deleted_at)) [
      | inl d ↦ rw (e, add_appraisal, d) h
      | inr d ↦ rw (e, add_appraisal, d) (collateral_row id r _ e refl)
    ]
  ]

  soft_delete_collateral-IsKeyed :
      (now : ℕ) (id : String) → IsKeyed (soft_delete_collateral now id s).1
  unfolding soft_delete_collateral
  soft_delete_collateral-IsKeyed now id = elim (Option-cases (get id s.collateral)) [
    | inl e ↦ rw (e, soft_delete_collateral) h
    | inr (r, e) ↦ elim (Bool-cases (is_some r.deleted_at)) [
      | inl d ↦ rw (e, soft_delete_collateral, d) h
      | inr d ↦ rw (e, soft_delete_collateral, d) (collateral_row id r _ e refl)
    ]
  ]

  restore_collateral-IsKeyed : (id : String) → IsKeyed (restore_collateral id s).1
  unfolding restore_collateral
  restore_collateral-IsKeyed id = elim (Option-cases (get id s.collateral)) [
    | inl e ↦ rw (e, restore_collateral) h
    | inr (r, e) ↦ elim (Bool-cases (is_some r.deleted_at)) [
      | inl d ↦ rw (e, restore_collateral, d) (collateral_row id r _ e refl)
      | inr d ↦ rw (e, restore_collateral, d) h
    ]
  ]

  update_loan-IsKeyed : (id : String) (u : LoanUpdates) → IsKeyed (update_loan id u s).1
  unfolding update_loan
  update_loan-IsKeyed id u = elim (Option-cases (get id s.loans)) [
    | inl e ↦ rw (e, update_loan) h
    | inr (r, e) ↦ rw (e, update_loan) (loan_row id r _ e refl)
  ]

  soft_delete_loan-IsKeyed : (now : ℕ) (id : String) → IsKeyed (soft_delete_loan now id s).1
  unfolding soft_delete_loan
  soft_delete_loan-IsKeyed now id = elim (Option-cases (get id s.loans)) [
    | inl e ↦ rw (e, soft_delete_loan) h
    | inr (r, e) ↦ elim (Bool-cases (is_some r.deleted_at)) [
      | inl d ↦ rw (e, soft_delete_loan, d) h
      | inr d ↦ rw (e, soft_delete_loan, d) (loan_row id r _ e refl)
    ]
  ]

  restore_loan-IsKeyed : (id : String) → IsKeyed (restore_loan id s).1
  unfolding restore_loan
  restore_loan-IsKeyed id = elim (Option-cases (get id s.loans)) [
    | inl e ↦ rw (e, restore_loan) h
    | inr (r, e) ↦ elim (Bool-cases (is_some r.deleted_at)) [
      | inl d ↦ rw (e, restore_loan, d) (loan_row id r _ e refl)
      | inr d ↦ rw (e, restore_loan, d) h
    ]
  ]

  update_transaction-IsKeyed :
      (now : ℕ) (id : String) (u : TransactionUpdates) → IsKeyed (update_transaction now id u s).1
  unfolding update_transaction
  update_transaction-IsKeyed now id u = elim (Option-cases (get id s.transactions)) [
    | inl e ↦ rw (e, update_transaction) h
    | inr (r, e) ↦ rw (e, update_transaction) (transaction_row id r _ e refl)
  ]

  -- Every call that changes a table files its rows under their own ids, if all were filed so before.
  pub run_call-IsKeyed : (c : Call) → IsKeyed (run_call c s)
  unfolding run_call insert_collateral insert_loan insert_transaction insert_liquidation_event
  run_call-IsKeyed (insert_collateral_call now c) = record {
    collateral =
        Entries-put (λ k (x : CollateralRecord). x.id ≡ k) c.id _ s.collateral h.collateral refl;
    loans = h.loans;
    transactions = h.transactions;
    liquidation_events = h.liquidation_events;
  }
  run_call-IsKeyed (add_appraisal_call now id v a) = add_appraisal-IsKeyed now id v a
  run_call-IsKeyed (update_collateral_call id u) = update_collateral-IsKeyed id u
  run_call-IsKeyed (soft_delete_collateral_call now id) = soft_delete_collateral-IsKeyed now id
  run_call-IsKeyed (restore_collateral_call id) = restore_collateral-IsKeyed id
  run_call-IsKeyed (insert_loan_call now d) = record {
    collateral = h.collateral;
    loans = Entries-put (λ k (x : LoanRecord). x.id ≡ k) d.id _ s.loans h.loans refl;
    transactions = h.transactions;
    liquidation_events = h.liquidation_events;
  }
  run_call-IsKeyed (update_loan_call id u) = update_loan-IsKeyed id u
  run_call-IsKeyed (soft_delete_loan_call now id) = soft_delete_loan-IsKeyed now id
  run_call-IsKeyed (restore_loan_call id) = restore_loan-IsKeyed id
  run_call-IsKeyed (insert_transaction_call now id d) = record {
    collateral = h.collateral;
    loans = h.loans;
    transactions =
        Entries-put (λ k (x : TransactionRecord). x.id ≡ k) id _ s.transactions h.transactions refl;
    liquidation_events = h.liquidation_events;
  }
  run_call-IsKeyed (update_transaction_call now id u) = update_transaction-IsKeyed now id u
  run_call-IsKeyed (insert_liquidation_event_call now id d) = record {
    collateral = h.collateral;
    loans = h.loans;
    transactions = h.transactions;
    liquidation_events =
        Entries-put (λ k x. x.id ≡ k) id _ s.liquidation_events h.liquidation_events refl;
  }

-- One call, a deletion too, makes no loan row vanish.
pub run_call-keeps_loans :
    (c : Call) (k : String) (s : Store) → get k s.loans ≢ none → get k (run_call c s).loans ≢ none
unfolding run_call insert_collateral insert_loan insert_transaction insert_liquidation_event
    add_appraisal update_collateral soft_delete_collateral restore_collateral update_loan
    soft_delete_loan restore_loan update_transaction
run_call-keeps_loans c k s h = grind (arith, get-put)

pub run_call-keeps_collateral :
    (c : Call) (k : String) (s : Store)
    → get k s.collateral ≢ none
    → get k (run_call c s).collateral ≢ none
unfolding run_call insert_collateral insert_loan insert_transaction insert_liquidation_event
    add_appraisal update_collateral soft_delete_collateral restore_collateral update_loan
    soft_delete_loan restore_loan update_transaction
run_call-keeps_collateral c k s h = grind (arith, get-put)

-- After any sequence of store calls the tables file their rows under their own ids, if they did
-- before it.
pub run_calls-IsKeyed : (cs : List Call) (s : Store) → IsKeyed s → IsKeyed (run_calls cs s)
unfolding run_calls
run_calls-IsKeyed [] s h = h
run_calls-IsKeyed (c ∷ cs) s h = run_calls-IsKeyed cs (run_call c s) (run_call-IsKeyed s h c)

-- No sequence of store calls, deletions among them, makes a loan and a collateral record that are
-- there vanish from their tables.
pub run_calls-keeps_rows :
    (cs : List Call) (k j : String) (s : Store)
    → get k s.loans ≢ none
    → get j s.collateral ≢ none
    → (get k (run_calls cs s).loans ≢ none) × (get j (run_calls cs s).collateral ≢ none)
unfolding run_calls
run_calls-keeps_rows [] k j s h g = (h, g)
run_calls-keeps_rows (c ∷ cs) k j s h g =
    run_calls-keeps_rows cs k j (run_call c s) (run_call-keeps_loans c k s h)
      (run_call-keeps_collateral c j s g)
