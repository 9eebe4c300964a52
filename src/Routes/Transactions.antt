-- ===== src/Routes/Transactions.antt =====
-- GET /api/transactions, /api/v1/transactions, /api/transactions/:id, /api/collateral and
-- /api/loans/:id of backend/src/index.ts. A query's number is `none` if it is no whole number; a date
-- that does not parse is the invalid one.
use stellar_kraal.Common.{
  ◌<>◌, ltb, leb, str_eq, if◌then◌else◌, is_some, ℕ, String, Bool, true, false, not, ◌&&◌, Option,
  none, some,
}
use stellar_kraal.Http.{
  User, key_of, Outcome, resolved, rejected, Validation, invalid, valid, Reply, reply, refuse,
}
use stellar_kraal.Auth.ApiKey.{known_key}
use stellar_kraal.Store.Records.{
  TransactionType, TransactionStatus, TransactionRecord, CollateralRecord, LoanRecord, Store,
}
use stellar_kraal.Store.Paging.{Page, given, DateBound, invalid_date, truthy}
use stellar_kraal.Store.Transactions.{list_transactions, get_transaction}
use stellar_kraal.Store.Collateral.{CollateralFilters, list_collateral, get_collateral}
use stellar_kraal.Store.Loans.{get_loan}

-- `req.query`: `type` and `status` are any text there, of which the store knows some.
pub record TransactionQuery : Type 0 where
  pub borrower : Option String
  pub type : Option String
  pub status : Option String
  pub loan_id : Option String
  pub collateral_id : Option String
  pub start_date : Option DateBound
  pub end_date : Option DateBound
  pub page : Option (Option ℕ)
  pub page_size : Option (Option ℕ)

-- `!Number.isInteger(n) || n < 1 || n > most`; a negative number counts as 0.
abbrev pub whole_within : ℕ → Option ℕ → Bool
whole_within most none = false
whole_within most (some n) = ltb 0 n && leb n most

abbrev pub positive_whole : Option ℕ → Bool
positive_whole none = false
positive_whole (some n) = ltb 0 n

abbrev pub is_invalid_date : Option DateBound → Bool
is_invalid_date (some invalid_date) = true
is_invalid_date _ = false

abbrev pub type_of : String → Option TransactionType
type_of t =
    if str_eq t "loan"
    then some TransactionType.loan
    else if str_eq t "repayment"
    then some TransactionType.repayment
    else if str_eq t "liquidation"
    then some TransactionType.liquidation
    else none

abbrev pub status_of : String → Option TransactionStatus
status_of t =
    if str_eq t "pending"
    then some TransactionStatus.pending
    else if str_eq t "completed"
    then some TransactionStatus.completed
    else if str_eq t "failed"
    then some TransactionStatus.failed
    else none

-- A filter whose text the check let through.
abbrev pub parsed {ℓ} : {A : Type ℓ} → (String → Option A) → Option String → Option A
parsed f t = elim (truthy t) [ none ↦ none | some x ↦ f x ]

-- `t && ![…].includes(t)`
abbrev pub is_unknown {ℓ} : {A : Type ℓ} → (String → Option A) → Option String → Bool
is_unknown f t = elim (truthy t) [ none ↦ false | some x ↦ not (is_some (f x)) ]

-- GET /api/v1/transactions
unfoldable pub my_transactions_route :
    Option User → TransactionQuery → Store → Reply (Page TransactionRecord)
my_transactions_route user q s = elim (known_key (key_of user)) [
  | none ↦ refuse 401 "Authenticated wallet address required"
  | some key ↦
      let page = given q.page (some 1) in
      let page_size = given q.page_size (some 20) in
      if not (positive_whole page)
      then refuse 400 "page must be a positive integer"
      else if not (whole_within 100 page_size)
      then refuse 400 "pageSize must be between 1 and 100"
      else if is_unknown type_of q.type
      then refuse 400 "type must be one of: loan, repayment, liquidation"
      else if is_unknown status_of q.status
      then refuse 400 "status must be one of: pending, completed, failed"
      else reply 200 (
          list_transactions
            (record {
              borrower = some key;
              type = parsed type_of q.type;
              status = parsed status_of q.status;
              loan_id = q.loan_id;
              collateral_id = q.collateral_id;
              start_date = none;
              end_date = none;
              page = page;
              page_size = page_size;
            })
            s)
]

-- GET /api/transactions; a `type` or `status` that the store does not know matches no row there, and
-- is left to the caller: the filters are parsed already.
unfoldable pub transactions_route :
    Option TransactionType
    → Option TransactionStatus
    → TransactionQuery
    → Store
    → Reply (Page TransactionRecord)
transactions_route type status q s =
    let page = given q.page (some 1) in
    let page_size = given q.page_size (some 20) in
    if not (positive_whole page)
    then refuse 400 "page must be a positive integer"
    else if not (whole_within 100 page_size)
    then refuse 400 "pageSize must be between 1 and 100"
    else if is_invalid_date q.start_date
    then refuse 400 "startDate must be a valid ISO date"
    else if is_invalid_date q.end_date
    then refuse 400 "endDate must be a valid ISO date"
    else reply 200 (
        list_transactions
          (record {
            borrower = q.borrower;
            type = type;
            status = status;
            loan_id = none;
            collateral_id = none;
            start_date = q.start_date;
            end_date = q.end_date;
            page = page;
            page_size = page_size;
          })
          s)

-- GET /api/transactions/:id
unfoldable pub transaction_route : String → Store → Reply TransactionRecord
transaction_route id s = elim (get_transaction id s) [
  | none ↦ refuse 404 "Transaction not found"
  | some t ↦ reply 200 t
]

-- GET /api/collateral, behind the response cache
unfoldable pub collateral_route :
    Validation CollateralFilters → Store → Reply (Page CollateralRecord)
collateral_route invalid s = refuse 400 "errors"
collateral_route (valid f) s = reply 200 (list_collateral f s)

pub record LoanDetail (V : Type 0) : Type 0 where
  pub loan : LoanRecord
  pub collateral : Option CollateralRecord
  pub on_chain_status : Option V

-- GET /api/loans/:id; the simulation's value, `null` if it has none or throws
unfoldable pub loan_detail_route :
    {V : Type 0} → String → Outcome (Option V) → Store → Reply (LoanDetail V)
loan_detail_route id simulated s = elim (get_loan id s) [
  | none ↦ refuse 404 ("Loan " <> id <> " not found")
  | some loan ↦ reply 200 (record {
    loan = loan;
    collateral = get_collateral loan.collateral_id s;
    on_chain_status = elim simulated [ resolved v ↦ v | rejected e ↦ none ];
  })
]
