-- ===== src/Store/Refinement/Rows.antt =====
-- backend/src/db/store.ts: what each writing call does to its table, seen as a function of the id.
use stellar_kraal.Common.{
  Option-cases, get, put, ℕ, String, ◌≡◌, refl, sym, ap, ◌∙◌, inl, inr, Option, none, some, arith,
}
use stellar_kraal.Store.Records.{Store}
use stellar_kraal.Store.Collateral.{
  add_appraisal, soft_delete_collateral, restore_collateral, CollateralUpdates, update_collateral,
  appraised, merge_collateral,
}
use stellar_kraal.Store.Loans.{restore_loan, soft_delete_loan, LoanUpdates, update_loan, merge_loan}
use stellar_kraal.Store.Transactions.{TransactionUpdates, update_transaction, merge_transaction}
use stellar_kraal.Store.Loans.{LoanUpdates}
use stellar_kraal.Store.Collateral.{CollateralUpdates}
use stellar_kraal.Store.Transactions.{TransactionUpdates}
use stellar_kraal.Store.Refinement.{adjust, if_live, adjust_row, no_row, same_row}

-- One call of each kind, on the table that it touches.
module _ (s : Store) where
  pub update_loan-tables :
      (id : String) (u : LoanUpdates)
      → (λ j. get j (update_loan id u s).1.loans)
        ≡ adjust id (λ r. merge_loan r u) (λ j. get j s.loans)
  unfolding update_loan
  update_loan-tables id u = elim (Option-cases (get id s.loans)) [
    | inl e ↦ rw (e, update_loan) (no_row id s.loans _ e)
    | inr (r, e) ↦ rw (e, update_loan) (adjust_row id s.loans (λ r. merge_loan r u) r _ e refl)
  ]

  pub update_collateral-tables :
      (id : String) (u : CollateralUpdates)
      → (λ j. get j (update_collateral id u s).1.collateral)
        ≡ adjust id (λ r. merge_collateral r u) (λ j. get j s.collateral)
  unfolding update_collateral
  update_collateral-tables id u = elim (Option-cases (get id s.collateral)) [
    | inl e ↦ rw (e, update_collateral) (no_row id s.collateral _ e)
    | inr (r, e) ↦
        rw (e, update_collateral)
          (adjust_row id s.collateral (λ r. merge_collateral r u) r _ e refl)
  ]

  pub update_transaction-tables :
      (now : ℕ) (id : String) (u : TransactionUpdates)
      → (λ j. get j (update_transaction now id u s).1.transactions)
        ≡ adjust id (λ r. merge_transaction now r u) (λ j. get j s.transactions)
  unfolding update_transaction
  update_transaction-tables now id u = elim (Option-cases (get id s.transactions)) [
    | inl e ↦ rw (e, update_transaction) (no_row id s.transactions _ e)
    | inr (r, e) ↦
        rw (e, update_transaction)
          (adjust_row id s.transactions (λ r. merge_transaction now r u) r _ e refl)
  ]

  pub soft_delete_loan-tables :
      (now : ℕ) (id : String)
      → (λ j. get j (soft_delete_loan now id s).1.loans)
        ≡ adjust id
            (λ r. if_live r.deleted_at (record r { deleted_at = some now }) r)
            (λ j. get j s.loans)
  unfolding soft_delete_loan
  soft_delete_loan-tables now id = elim (Option-cases (get id s.loans)) [
    | inl e ↦ rw (e, soft_delete_loan) (no_row id s.loans _ e)
    | inr (r, e) ↦ elim (Option-cases r.deleted_at) [
      | inl d ↦
          let kept : (soft_delete_loan now id s).1.loans
              ≡ put id (record r { deleted_at = some now }) s.loans =
            ground (arith, e, d) in
          ap (λ m j. get j m) kept
          ∙ adjust_row id s.loans (λ r. if_live r.deleted_at (record r { deleted_at = some now }) r)
              r (record r { deleted_at = some now }) e (ground (arith, d))
      | inr (t, d) ↦
          let kept : (soft_delete_loan now id s).1.loans ≡ s.loans = ground (arith, e, d) in
          ap (λ m j. get j m) kept
          ∙ same_row id s.loans (λ r. if_live r.deleted_at (record r { deleted_at = some now }) r) r
              e (ground (arith, d))
    ]
  ]

  pub restore_loan-tables :
      (id : String)
      → (λ j. get j (restore_loan id s).1.loans)
        ≡ adjust id (λ r. record r { deleted_at = none }) (λ j. get j s.loans)
  unfolding restore_loan
  restore_loan-tables id = elim (Option-cases (get id s.loans)) [
    | inl e ↦ rw (e, restore_loan) (no_row id s.loans _ e)
    | inr (r, e) ↦ elim (Option-cases r.deleted_at) [
      | inl d ↦
          let kept : (restore_loan id s).1.loans ≡ s.loans = ground (arith, e, d) in
          ap (λ m j. get j m) kept
          ∙ same_row id s.loans (λ r. record r { deleted_at = none }) r e
              (ap (λ x. record r { deleted_at = x }) (sym d))
      | inr (t, d) ↦
          let kept : (restore_loan id s).1.loans ≡ put id (record r { deleted_at = none }) s.loans =
            ground (arith, e, d) in
          ap (λ m j. get j m) kept
          ∙ adjust_row id s.loans (λ r. record r { deleted_at = none }) r
              (record r { deleted_at = none }) e (ground (arith, d))
    ]
  ]

  pub soft_delete_collateral-tables :
      (now : ℕ) (id : String)
      → (λ j. get j (soft_delete_collateral now id s).1.collateral)
        ≡ adjust id
            (λ r. if_live r.deleted_at (record r { deleted_at = some now }) r)
            (λ j. get j s.collateral)
  unfolding soft_delete_collateral
  soft_delete_collateral-tables now id = elim (Option-cases (get id s.collateral)) [
    | inl e ↦ rw (e, soft_delete_collateral) (no_row id s.collateral _ e)
    | inr (r, e) ↦ elim (Option-cases r.deleted_at) [
      | inl d ↦
          let kept : (soft_delete_collateral now id s).1.collateral
              ≡ put id (record r { deleted_at = some now }) s.collateral =
            ground (arith, e, d) in
          ap (λ m j. get j m) kept
          ∙ adjust_row id s.collateral
              (λ r. if_live r.deleted_at (record r { deleted_at = some now }) r) r
              (record r { deleted_at = some now }) e (ground (arith, d))
      | inr (t, d) ↦
          let kept : (soft_delete_collateral now id s).1.collateral ≡ s.collateral =
            ground (arith, e, d) in
          ap (λ m j. get j m) kept
          ∙ same_row id s.collateral
              (λ r. if_live r.deleted_at (record r { deleted_at = some now }) r) r e
              (ground (arith, d))
    ]
  ]

  pub restore_collateral-tables :
      (id : String)
      → (λ j. get j (restore_collateral id s).1.collateral)
        ≡ adjust id (λ r. record r { deleted_at = none }) (λ j. get j s.collateral)
  unfolding restore_collateral
  restore_collateral-tables id = elim (Option-cases (get id s.collateral)) [
    | inl e ↦ rw (e, restore_collateral) (no_row id s.collateral _ e)
    | inr (r, e) ↦ elim (Option-cases r.deleted_at) [
      | inl d ↦
          let kept : (restore_collateral id s).1.collateral ≡ s.collateral = ground (arith, e, d) in
          ap (λ m j. get j m) kept
          ∙ same_row id s.collateral (λ r. record r { deleted_at = none }) r e
              (ap (λ x. record r { deleted_at = x }) (sym d))
      | inr (t, d) ↦
          let kept : (restore_collateral id s).1.collateral
              ≡ put id (record r { deleted_at = none }) s.collateral =
            ground (arith, e, d) in
          ap (λ m j. get j m) kept
          ∙ adjust_row id s.collateral (λ r. record r { deleted_at = none }) r
              (record r { deleted_at = none }) e (ground (arith, d))
    ]
  ]

  pub add_appraisal-tables :
      (now : ℕ) (id : String) (v : ℕ) (a : Option String)
      → (λ j. get j (add_appraisal now id v a s).1.collateral)
        ≡ adjust id (λ r. if_live r.deleted_at (appraised now v a r) r) (λ j. get j s.collateral)
  unfolding add_appraisal
  add_appraisal-tables now id v a = elim (Option-cases (get id s.collateral)) [
    | inl e ↦ rw (e, add_appraisal) (no_row id s.collateral _ e)
    | inr (r, e) ↦ elim (Option-cases r.deleted_at) [
      | inl d ↦
          let kept : (add_appraisal now id v a s).1.collateral
              ≡ put id (appraised now v a r) s.collateral =
            ground (arith, e, d) in
          ap (λ m j. get j m) kept
          ∙ adjust_row id s.collateral (λ r. if_live r.deleted_at (appraised now v a r) r) r
              (appraised now v a r) e (ground (arith, d))
      | inr (t, d) ↦
          let kept : (add_appraisal now id v a s).1.collateral ≡ s.collateral =
            ground (arith, e, d) in
          ap (λ m j. get j m) kept
          ∙ same_row id s.collateral (λ r. if_live r.deleted_at (appraised now v a r) r) r e
              (ground (arith, d))
    ]
  ]
