-- ===== src/Store/Calls.antt =====
-- backend/src/db/store.ts: every call that changes a table, as one type, and the invariant that
-- each table files its rows under their own ids.
use stellar_kraal.Common.{
  str_eq, str_eq_iff, Bool-cases, Dict, get, Entries, ℕ, String, ◌≡◌, subst, inl, inr, Option, some,
  List, [], ◌∷◌, arith,
}
use stellar_kraal.Store.Records.{
  CollateralRecord, LoanRecord, TransactionRecord, LiquidationEvent, Store,
}
use stellar_kraal.Store.Collateral.{
  CollateralInput, CollateralUpdates, insert_collateral, add_appraisal, update_collateral,
  soft_delete_collateral, restore_collateral,
}
use stellar_kraal.Store.Loans.{
  LoanInput, LoanUpdates, insert_loan, update_loan, soft_delete_loan, restore_loan,
}
use stellar_kraal.Store.Transactions.{
  TransactionInput, TransactionUpdates, LiquidationInput, insert_transaction, update_transaction,
  insert_liquidation_event,
}

pub data Call : Type 0 where
  insert_collateral_call : ℕ → CollateralInput → Call
  add_appraisal_call : ℕ → String → ℕ → Option String → Call
  update_collateral_call : String → CollateralUpdates → Call
  soft_delete_collateral_call : ℕ → String → Call
  restore_collateral_call : String → Call
  insert_loan_call : ℕ → LoanInput → Call
  update_loan_call : String → LoanUpdates → Call
  soft_delete_loan_call : ℕ → String → Call
  restore_loan_call : String → Call
  insert_transaction_call : ℕ → String → TransactionInput → Call
  update_transaction_call : ℕ → String → TransactionUpdates → Call
  insert_liquidation_event_call : ℕ → String → LiquidationInput → Call

unfoldable pub run_call : Call → Store → Store
run_call (insert_collateral_call now c) s = (insert_collateral now c s).1
run_call (add_appraisal_call now id v a) s = (add_appraisal now id v a s).1
run_call (update_collateral_call id u) s = (update_collateral id u s).1
run_call (soft_delete_collateral_call now id) s = (soft_delete_collateral now id s).1
run_call (restore_collateral_call id) s = (restore_collateral id s).1
run_call (insert_loan_call now d) s = (insert_loan now d s).1
run_call (update_loan_call id u) s = (update_loan id u s).1
run_call (soft_delete_loan_call now id) s = (soft_delete_loan now id s).1
run_call (restore_loan_call id) s = (restore_loan id s).1
run_call (insert_transaction_call now id d) s = (insert_transaction now id d s).1
run_call (update_transaction_call now id u) s = (update_transaction now id u s).1
run_call (insert_liquidation_event_call now id d) s = (insert_liquidation_event now id d s).1

unfoldable pub run_calls : List Call → Store → Store
unfolding run_call
run_calls [] s = s
run_calls (c ∷ cs) s = run_calls cs (run_call c s)

-- Each table files its rows under their own ids.
pub record IsKeyed (s : Store) : Type 0 where
  pub collateral : Entries (λ k (r : CollateralRecord). r.id ≡ k) s.collateral
  pub loans : Entries (λ k (r : LoanRecord). r.id ≡ k) s.loans
  pub transactions : Entries (λ k (r : TransactionRecord). r.id ≡ k) s.transactions
  pub liquidation_events : Entries (λ k (r : LiquidationEvent). r.id ≡ k) s.liquidation_events

-- The entry behind a key satisfies what all entries do.
pub Entries-get {ℓ κ} :
    {V : Type ℓ} (P : String → V → Type κ) (k : String) (v : V) (m : Dict V)
    → Entries P m
    → get k m ≡ some v
    → P k v
unfolding get
Entries-get P k v [] h e = cc
Entries-get P k v ((j, w) ∷ m) (p, h) e = elim (Bool-cases (str_eq j k)) [
  | inl same ↦ subst (λ t. P t v) ((str_eq_iff j k).0 same) (subst (P j) (ground (arith, same)) p)
  | inr other ↦ Entries-get P k v m h (ground (arith, other))
]
