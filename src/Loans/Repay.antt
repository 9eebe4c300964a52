-- ===== src/Loans/Repay.antt =====
-- PUT /api/loans/:id/repay in backend/src/index.ts. Amounts are whole numbers; the route takes fractions
-- of a stroop as well.
use stellar_kraal.Common.{
  ltb, ◌==◌, str_eq, if◌then◌else◌, Option-cases, get, put, get-put_self, ℕ, ◌+◌, ◌-◌, ◌≤◌, ◌<◌,
  String, ◌≡◌, inl, inr, Option, none, some, arith,
}
use text.Mathlib.Text.{starts_with}
use stellar_kraal.Http.{Reply, reply, refuse}
use stellar_kraal.Store.Records.{LoanRecord, TransactionRecord, Store, repayment, completed}
use stellar_kraal.Store.Loans.{no_loan_updates, get_loan, update_loan}
use stellar_kraal.Store.Transactions.{insert_transaction, new_transaction}
use stellar_kraal.Store.SoftDelete.{get_loan-eq-some}
use stellar_kraal.Caches.Responses.{invalidate_cache, get-invalidate_cache}
use stellar_kraal.Routes.Collateral.{Site}

-- The body as it arrives: `none` for what is no finite number, or no string.
pub record RepayBody : Type 0 where
  pub amount : Option ℕ
  pub transaction_hash : Option String

-- The transaction that the route records.
abbrev pub repayment_of : LoanRecord → ℕ → Store → ℕ → String → Store
repayment_of loan amount s now tx_id =
    (insert_transaction now tx_id
      (record {
        borrower = loan.borrower;
        type = repayment;
        status = completed;
        amount = amount;
        loan_id = some loan.id;
        collateral_id = none;
      })
      s).1

-- The part behind the checks of the body.
unfoldable pub repay_amount :
    {B : Type 0} → ℕ → String → String → ℕ → Site B → Reply (Option LoanRecord) × Site B
repay_amount now tx_id id amount site = elim (get_loan id site.store) [
  | none ↦ (refuse 404 "Loan not found", site)
  | some loan ↦
      if ltb loan.amount amount
      then (refuse 400 "amount exceeds outstanding balance", site)
      else let (updated, s') =
          update_loan id (record no_loan_updates { amount = some (loan.amount - amount) })
            site.store in
        (
          reply 200 updated,
          record {
            store = repayment_of loan amount s' now tx_id;
            responses = invalidate_cache "/api/loans" site.responses;
          },
        )
]

unfoldable pub repay_loan_route :
    {B : Type 0} → ℕ → String → String → RepayBody → Site B → Reply (Option LoanRecord) × Site B
unfolding repay_amount
repay_loan_route now tx_id id body site = elim body.amount [
  | none ↦ (refuse 400 "amount must be a positive number", site)
  | some amount ↦
      if amount == 0
      then (refuse 400 "amount must be a positive number", site)
      else elim body.transaction_hash [
        | none ↦ (refuse 400 "transactionHash is required", site)
        | some hash ↦
            if str_eq hash ""
            then (refuse 400 "transactionHash is required", site)
            else repay_amount now tx_id id amount site
      ]
]

-- The completed repayment that is filed.
abbrev pub filed : LoanRecord → ℕ → ℕ → String → TransactionRecord
filed loan amount now tx_id = new_transaction now tx_id (record {
  borrower = loan.borrower;
  type = repayment;
  status = completed;
  amount = amount;
  loan_id = some loan.id;
  collateral_id = none;
})

-- A repayment of no more than the balance of a visible loan answers with the loan, whose balance is lower
-- by exactly the amount. Of the tables it changes two entries and no other: the loan's, and the one of the
-- new transaction, a completed repayment of that amount for that loan. Of the cached responses it drops
-- those whose key begins with /api/loans and no other.
pub repay_amount_lem :
    {B : Type 0} (now : ℕ) (tx_id id key : String) (amount : ℕ) (site : Site B) (loan : LoanRecord)
    → get_loan id site.store ≡ some loan
    → amount ≤ loan.amount
    → let loan' : LoanRecord = record loan { amount = loan.amount - amount } in
      let (answer, site') = repay_amount now tx_id id amount site in
      (answer ≡ reply 200 (some loan'))
      × (loan'.amount + amount ≡ loan.amount)
      × (get_loan id site'.store ≡ some loan')
      × (site'.store ≡ record site.store {
        loans = put id loan' site.store.loans;
        transactions = put tx_id (filed loan amount now tx_id) site.store.transactions;
      })
      × (get key site'.responses
          ≡ (if starts_with key "/api/loans" then none else get key site.responses))
unfolding repay_amount update_loan insert_transaction get_loan
repay_amount_lem now tx_id id key amount site loan e le =
    let (row, live) = get_loan-eq-some id site.store loan e in
    let loan' : LoanRecord = record loan { amount = loan.amount - amount } in
    let stored = get-put_self id loan' site.store.loans in
    (
      ground arith,
      omega arith,
      ground (arith, stored),
      ground arith,
      ground (arith, get-invalidate_cache "/api/loans" key site.responses),
    )

-- A repayment above the balance, or of a loan that is absent or deleted, changes nothing.
pub repay_amount-refused :
    {B : Type 0} (now : ℕ) (tx_id id : String) (amount : ℕ) (site : Site B)
    → ((loan : LoanRecord) → get_loan id site.store ≡ some loan → loan.amount < amount)
    → (repay_amount now tx_id id amount site).1 ≡ site
unfolding repay_amount
repay_amount-refused now tx_id id amount site h = elim (Option-cases (get_loan id site.store)) [
  | inl e ↦ rw (e, repay_amount)
  | inr (loan, e) ↦ ground (arith, e, h loan e)
]
