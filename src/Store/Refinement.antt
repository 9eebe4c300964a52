-- ===== src/Store/Refinement.antt =====
-- backend/src/db/store.ts: the tables as functions of the id, without their order, and what each
-- writing call does to them.
pub mod Rows
pub mod Calls
use stellar_kraal.Common.{
  str_eq, if◌then◌else◌, str_eq_iff, is_some, Dict, get, put, get-put, ℕ, zero, suc, ◌-◌, String,
  ◌≡◌, ap, Option, none, some, List, [], ◌∷◌, map, arith,
}
use mathlib.Core.Path.{fun_ext}
use stellar_kraal.Store.Records.{
  CollateralRecord, LoanRecord, TransactionRecord, LiquidationEvent, Store,
}
use stellar_kraal.Store.Collateral.{
  add_appraisal, soft_delete_collateral, restore_collateral, CollateralUpdates, update_collateral,
  new_collateral, appraised, merge_collateral,
}
use stellar_kraal.Store.Loans.{
  restore_loan, soft_delete_loan, LoanUpdates, update_loan, new_loan, merge_loan,
}
use stellar_kraal.Store.Transactions.{
  TransactionUpdates, update_transaction, new_transaction, merge_transaction, new_liquidation_event,
}
use stellar_kraal.Store.Calls.{
  Call, insert_collateral_call, add_appraisal_call, update_collateral_call,
  soft_delete_collateral_call, restore_collateral_call, insert_loan_call, update_loan_call,
  soft_delete_loan_call, restore_loan_call, insert_transaction_call, update_transaction_call,
  insert_liquidation_event_call,
}

abbrev pub Table : Type 0 → Type 0
Table V = String → Option V

-- The specification's state: who is filed under an id.
pub record Tables : Type 0 where
  pub collateral : Table CollateralRecord
  pub loans : Table LoanRecord
  pub transactions : Table TransactionRecord
  pub liquidation_events : Table LiquidationEvent

abbrev pub set : {V : Type 0} → String → V → Table V → Table V
set k v t j = if str_eq k j then some v else t j

abbrev pub map_row : {V : Type 0} → (V → V) → Option V → Option V
map_row f none = none
map_row f (some r) = some (f r)

-- The row under one id changed, if there is one.
abbrev pub adjust : {V : Type 0} → String → (V → V) → Table V → Table V
adjust k f t j = if str_eq k j then map_row f (t k) else t j

-- A row that only a visible, or only a deleted one gives way to.
abbrev pub if_live {ℓ} : {V : Type ℓ} → Option ℕ → V → V → V
if_live deleted new old = if is_some deleted then old else new

-- What each call means.
unfoldable pub spec_call : Call → Tables → Tables
spec_call (insert_collateral_call now c) t = record t {
  collateral = set c.id (new_collateral now c) t.collateral;
}
spec_call (add_appraisal_call now id v a) t = record t {
  collateral = adjust id (λ r. if_live r.deleted_at (appraised now v a r) r) t.collateral;
}
spec_call (update_collateral_call id u) t = record t {
  collateral = adjust id (λ r. merge_collateral r u) t.collateral;
}
spec_call (soft_delete_collateral_call now id) t = record t {
  collateral =
      adjust id (λ r. if_live r.deleted_at (record r { deleted_at = some now }) r) t.collateral;
}
spec_call (restore_collateral_call id) t = record t {
  collateral = adjust id (λ r. record r { deleted_at = none }) t.collateral;
}
spec_call (insert_loan_call now d) t = record t { loans = set d.id (new_loan now d) t.loans }
spec_call (update_loan_call id u) t = record t { loans = adjust id (λ r. merge_loan r u) t.loans }
spec_call (soft_delete_loan_call now id) t = record t {
  loans = adjust id (λ r. if_live r.deleted_at (record r { deleted_at = some now }) r) t.loans;
}
spec_call (restore_loan_call id) t = record t {
  loans = adjust id (λ r. record r { deleted_at = none }) t.loans;
}
spec_call (insert_transaction_call now id d) t = record t {
  transactions = set id (new_transaction now id d) t.transactions;
}
spec_call (update_transaction_call now id u) t = record t {
  transactions = adjust id (λ r. merge_transaction now r u) t.transactions;
}
spec_call (insert_liquidation_event_call now id d) t = record t {
  liquidation_events = set id (new_liquidation_event now id d) t.liquidation_events;
}

unfoldable pub spec_calls : List Call → Tables → Tables
unfolding spec_call
spec_calls [] t = t
spec_calls (c ∷ cs) t = spec_calls cs (spec_call c t)

-- The tables that a store stands for.
abbrev pub tables_of : Store → Tables
tables_of s = record {
  collateral = λ id. get id s.collateral;
  loans = λ id. get id s.loans;
  transactions = λ id. get id s.transactions;
  liquidation_events = λ id. get id s.liquidation_events;
}

module _ {V : Type 0} (k : String) (m : Dict V) where
  -- A write.
  pub set_row : (v : V) → (λ j. get j (put k v m)) ≡ set k v (λ j. get j m)
  set_row v = fun_ext (λ j. get-put k j v m)

  -- A write over a row that is there, and the lack of one.
  pub adjust_row :
      (f : V → V) (r r' : V)
      → get k m ≡ some r
      → f r ≡ r'
      → (λ j. get j (put k r' m)) ≡ adjust k f (λ j. get j m)
  adjust_row f r r' e same = fun_ext (λ j. ground (arith, e, same, get-put k j r' m))

  pub no_row : (f : V → V) → get k m ≡ none → (λ j. get j m) ≡ adjust k f (λ j. get j m)
  no_row f e = fun_ext (λ j. ground (arith, e, str_eq_iff k j))

  pub same_row :
      (f : V → V) (r : V) → get k m ≡ some r → f r ≡ r → (λ j. get j m) ≡ adjust k f (λ j. get j m)
  same_row f r e same = fun_ext (λ j. ground (arith, e, same, str_eq_iff k j))

-- What a read of the specification shows.
abbrev pub visible : {V : Type 0} → (V → Option ℕ) → Option V → Option V
visible deleted_at none = none
visible deleted_at (some r) = if is_some (deleted_at r) then none else some r
