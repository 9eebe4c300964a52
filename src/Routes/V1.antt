-- ===== src/Routes/V1.antt =====
-- Routes of backend/src/routes/v1.ts over the store: the loan listing with listLoansPaginated of
-- backend/src/services/loanService.ts, the admin listings, the settings and the transaction status.
pub mod Laws
use stellar_kraal.Common.{
  ltb, str_eq, if◌then◌else◌, length, filter_by, Dict, get, put, ℕ, zero, suc, ◌+◌, min, String, ap,
  Bool, true, false, not, ◌&&◌, ◌||◌, Option, none, some, List, [], ◌∷◌, map,
}
use stellar_kraal.Http.{
  Outcome, resolved, rejected, Validation, invalid, valid, Reply, reply, refuse,
}
use stellar_kraal.Store.Records.{LoanStatus, LoanRecord, CollateralRecord, Store, holds}
use stellar_kraal.Store.Records
use stellar_kraal.Store.Paging.{Page, given, truthy, DateBound, invalid_date}
use stellar_kraal.Store.Loans.{LoanFilters, no_loan_filters, list_loans}
use stellar_kraal.Store.Collateral.{get_collateral}
use stellar_kraal.Routes.Transactions.{
  positive_whole, whole_within, is_invalid_date, parsed, is_unknown,
}

-- `ListLoansQuery`; a number is `none` if it is no whole number, or is negative.
pub record ListLoansQuery : Type 0 where
  pub page : Option (Option ℕ)
  pub page_size : Option (Option ℕ)
  pub limit : Option (Option ℕ)
  pub status : Option String
  pub borrower_address : Option String
  pub from : Option DateBound
  pub to : Option DateBound

-- `validStatuses`
abbrev pub valid_status : String → Option LoanStatus
valid_status t =
    if str_eq t "active"
    then some LoanStatus.active
    else if str_eq t "repaid"
    then some LoanStatus.repaid
    else if str_eq t "liquidated"
    then some LoanStatus.liquidated
    else none

-- `limitRaw`, and whether it is the `pageSize`.
abbrev pub limit_raw : ListLoansQuery → Option ℕ × Bool
limit_raw q = elim q.page_size [ none ↦ (given q.limit (some 20), false) | some n ↦ (n, true) ]

abbrev pub number : Option ℕ → ℕ
number none = 0
number (some n) = n

unfoldable pub list_loans_paginated : ListLoansQuery → Store → Outcome (Page LoanRecord)
list_loans_paginated q s =
    let page = given q.page (some 1) in
    let (limit, is_page_size) = limit_raw q in
    if not (positive_whole page) || not (positive_whole limit)
    then rejected "Invalid pagination parameters"
    else if not is_page_size && ltb 100 (number limit)
    then rejected "Invalid pagination parameters"
    else if is_unknown valid_status q.status
    then rejected "status must be one of: active, repaid, liquidated"
    else if is_invalid_date q.from
    then rejected "from must be a valid ISO date"
    else if is_invalid_date q.to
    then rejected "to must be a valid ISO date"
    else resolved (
        list_loans
          (record {
            status = elim (parsed valid_status q.status) [ none ↦ none | some st ↦ some (some st) ];
            borrower_address = q.borrower_address;
            from = q.from;
            to = q.to;
            page = page;
            limit = some (min (number limit) 100);
          })
          s)

-- GET /api/v1/loans
unfoldable pub loans_route : ListLoansQuery → Store → Reply (Page LoanRecord)
unfolding list_loans_paginated
loans_route q s = elim (list_loans_paginated q s) [
  | rejected e ↦ refuse 400 e
  | resolved p ↦ reply 200 p
]

-- GET /api/v1/collateral/:id
unfoldable pub collateral_by_id_route : String → Store → Reply CollateralRecord
collateral_by_id_route id s = elim (get_collateral id s) [
  | none ↦ refuse 404 "Collateral not found"
  | some c ↦ reply 200 c
]

-- `listLoans({ page: 1, pageSize: 1000 })`: the store knows no `pageSize`.
abbrev pub admin_loans : Store → Page LoanRecord
admin_loans s = list_loans (record no_loan_filters { page = some 1 }) s

-- `[...new Set(xs)]`
unfoldable pub distinct : List String → List String
distinct [] = []
distinct (x ∷ xs) = x ∷ filter_by (λ y. not (str_eq y x)) (distinct xs)

-- GET /api/v1/admin/users
unfoldable pub admin_users : Store → List String × ℕ
unfolding distinct
admin_users s =
    let users = distinct (map (λ (l : LoanRecord). l.borrower) (admin_loans s).rows) in
    (users, length users)

abbrev pub status_text : LoanStatus → String
status_text LoanStatus.active = "active"
status_text LoanStatus.at_risk = "at_risk"
status_text LoanStatus.repaid = "repaid"
status_text LoanStatus.liquidated = "liquidated"

-- GET /api/v1/admin/moderation-queue
unfoldable pub moderation_queue : Store → List LoanRecord × ℕ
moderation_queue s =
    let queue =
      filter_by (λ (l : LoanRecord). holds (λ st. str_eq (status_text st) "pending") l.status)
        (admin_loans s).rows in
    (queue, length queue)

abbrev pub total_amount : List LoanRecord → ℕ
total_amount [] = 0
total_amount (l ∷ ls) = l.amount + total_amount ls

-- The key of a status under `acc[l.status]`.
abbrev pub status_key : Option LoanStatus → String
status_key none = "undefined"
status_key (some st) = status_text st

abbrev pub count_status : List LoanRecord → Dict ℕ → Dict ℕ
count_status [] acc = acc
count_status (l ∷ ls) acc =
    count_status ls (put (status_key l.status) (given (get (status_key l.status) acc) 0 + 1) acc)

pub record Statistics : Type 0 where
  pub total_loans : ℕ
  pub total_amount : ℕ
  pub by_status : Dict ℕ

-- GET /api/v1/admin/statistics
unfoldable pub admin_statistics : Store → Statistics
admin_statistics s =
    let p = admin_loans s in
    record {
      total_loans = p.total;
      total_amount = total_amount p.rows;
      by_status = count_status p.rows [];
    }

pub record Notifications : Type 0 where
  pub loan_approved : Bool
  pub loan_repaid : Bool
  pub liquidation_warning : Bool

pub record UserSettings : Type 0 where
  pub wallet_address : String
  pub join_date : ℕ
  pub notifications : Option Notifications
  pub language : Option String
  pub currency : Option String

-- `validation.data` of `settingsSchema`
pub record SettingsInput : Type 0 where
  pub notifications : Option Notifications
  pub language : Option String
  pub currency : Option String

abbrev pub default_settings : ℕ → String → UserSettings
default_settings now wallet = record {
  wallet_address = wallet;
  join_date = now;
  notifications =
      some (record { loan_approved = true; loan_repaid = true; liquidation_warning = true });
  language = some "en";
  currency = some "USD";
}

-- GET /api/v1/settings/:wallet
unfoldable pub get_settings_route : ℕ → String → Dict UserSettings → Reply UserSettings
get_settings_route now wallet store =
    reply 200 (given (get wallet store) (default_settings now wallet))

abbrev pub or_else {ℓ} : {A : Type ℓ} → Option A → Option A → Option A
or_else none old = old
or_else (some a) old = some a

abbrev pub merge_settings : UserSettings → SettingsInput → UserSettings
merge_settings old u = record old {
  notifications = or_else u.notifications old.notifications;
  language = or_else u.language old.language;
  currency = or_else u.currency old.currency;
}

-- PUT /api/v1/settings/:wallet
unfoldable pub put_settings_route :
    ℕ
    → String
    → Validation SettingsInput
    → Dict UserSettings
    → Reply UserSettings × Dict UserSettings
put_settings_route now wallet invalid store = (refuse 400 "Validation failed", store)
put_settings_route now wallet (valid u) store =
    let updated = merge_settings (given (get wallet store) (default_settings now wallet)) u in
    (reply 200 updated, put wallet updated store)

pub data TxState : Type 0 where
  tx_success : ℕ → TxState
  tx_failed : Option String → TxState
  tx_pending : TxState

-- What `getTransaction` of the RPC gives: a status, a ledger and a result.
pub record RpcTransaction : Type 0 where
  pub status : Option String
  pub ledger : ℕ
  pub result_xdr : Option String

-- GET /api/v1/transactions/:hash/status; `is_hash` is the test of the regular expression.
unfoldable pub transaction_status_route :
    (String → Bool) → String → Outcome RpcTransaction → Reply TxState
transaction_status_route is_hash hash (rejected e) =
    if not (is_hash hash) then refuse 400 "Validation failed" else refuse 502 "RPC error"
transaction_status_route is_hash hash (resolved t) =
    let status = given t.status "NOT_FOUND" in
    if not (is_hash hash)
    then refuse 400 "Validation failed"
    else if str_eq status "SUCCESS"
    then reply 200 (tx_success t.ledger)
    else if str_eq status "FAILED"
    then reply 200 (tx_failed t.result_xdr)
    else reply 200 tx_pending
