-- ===== src/Store/Loans.antt =====
-- backend/src/db/store.ts: the loan table. The clock is an argument, `now`.
use stellar_kraal.Common.{
  str_eq, if◌then◌else◌, is_some, length, filter_by, any_by, get, put, values, sort_desc, ℕ, ◌-◌,
  ◌*◌, min, max, String, Bool, true, false, not, ◌&&◌, ◌||◌, Option, none, some, List,
}
use stellar_kraal.Store.Records.{
  Ratio, LoanStatus, active, at_risk, LoanRecord, Store, same_loan_status, holds,
}
use stellar_kraal.Store.Paging.{
  Page, slice, given, or_keep, truthy, given_nonzero, filter_given, DateBound, not_before,
  not_after,
}

-- The argument of `insertLoan`.
pub record LoanInput : Type 0 where
  pub id : String
  pub borrower : String
  pub collateral_id : String
  pub amount : ℕ
  pub status : Option LoanStatus
  pub health_factor : Option Ratio

abbrev pub new_loan : ℕ → LoanInput → LoanRecord
new_loan now d = record {
  id = d.id;
  borrower = d.borrower;
  collateral_id = d.collateral_id;
  amount = d.amount;
  status = some (given d.status active);
  health_factor = d.health_factor;
  created_at = now;
  deleted_at = none;
}

unfoldable pub insert_loan : ℕ → LoanInput → Store → LoanRecord × Store
insert_loan now d s = (new_loan now d, record s { loans = put d.id (new_loan now d) s.loans })

-- `status` is any text there; one that is no loan status matches nothing, which `none` inside
-- stands for.
pub record LoanFilters : Type 0 where
  pub status : Option (Option LoanStatus)
  pub borrower_address : Option String
  pub from : Option DateBound
  pub to : Option DateBound
  pub page : Option ℕ
  pub limit : Option ℕ

abbrev pub no_loan_filters : LoanFilters
no_loan_filters = record {
  status = none;
  borrower_address = none;
  from = none;
  to = none;
  page = none;
  limit = none;
}

-- `r.status === filters.status`
abbrev pub status_is : Option LoanStatus → LoanRecord → Bool
status_is none r = false
status_is (some st) r = holds (same_loan_status st) r.status

unfoldable pub matching_loans : LoanFilters → Store → List LoanRecord
unfolding filter_given
matching_loans f s =
    let live = filter_by (λ r. not (is_some r.deleted_at)) (values s.loans) in
    let by_status = filter_given f.status status_is live in
    let by_borrower =
      filter_given (truthy f.borrower_address) (λ b r. str_eq r.borrower b) by_status in
    let since = filter_given f.from (λ d r. not_before d r.created_at) by_borrower in
    filter_given f.to (λ d r. not_after d r.created_at) since

unfoldable pub list_loans : LoanFilters → Store → Page LoanRecord
unfolding slice
list_loans f s =
    let limit = min (given_nonzero f.limit 20) 100 in
    let page = max (given_nonzero f.page 1) 1 in
    let results = sort_desc (λ r. r.created_at) (matching_loans f s) in
    record {
      rows = slice ((page - 1) * limit) (page * limit) results;
      total = length results;
      page = page;
      limit = limit;
    }

-- `r.status === 'active' || r.status === 'at_risk'`
abbrev pub is_open : LoanRecord → Bool
is_open r = holds (same_loan_status active) r.status || holds (same_loan_status at_risk) r.status

unfoldable pub list_active_loans : Store → List LoanRecord
list_active_loans s = filter_by (λ r. not (is_some r.deleted_at) && is_open r) (values s.loans)

unfoldable pub get_loan : String → Store → Option LoanRecord
get_loan id s = elim (get id s.loans) [
  | none ↦ none
  | some r ↦ if is_some r.deleted_at then none else some r
]

-- `Partial<…>`: the fields that are present. (No caller passes an explicit `undefined`.)
pub record LoanUpdates : Type 0 where
  pub borrower : Option String
  pub collateral_id : Option String
  pub amount : Option ℕ
  pub status : Option LoanStatus
  pub health_factor : Option (Option Ratio)
  pub deleted_at : Option (Option ℕ)

abbrev pub no_loan_updates : LoanUpdates
no_loan_updates = record {
  borrower = none;
  collateral_id = none;
  amount = none;
  status = none;
  health_factor = none;
  deleted_at = none;
}

-- `{ ...record, ...updates }`
abbrev pub merge_loan : LoanRecord → LoanUpdates → LoanRecord
merge_loan r u = record r {
  borrower = given u.borrower r.borrower;
  collateral_id = given u.collateral_id r.collateral_id;
  amount = given u.amount r.amount;
  status = or_keep u.status r.status;
  health_factor = given u.health_factor r.health_factor;
  deleted_at = given u.deleted_at r.deleted_at;
}

unfoldable pub update_loan : String → LoanUpdates → Store → Option LoanRecord × Store
update_loan id u s = elim (get id s.loans) [
  | none ↦ (none, s)
  | some r ↦ (some (merge_loan r u), record s { loans = put id (merge_loan r u) s.loans })
]

unfoldable pub soft_delete_loan : ℕ → String → Store → Bool × Store
soft_delete_loan now id s = elim (get id s.loans) [
  | none ↦ (false, s)
  | some r ↦
      if is_some r.deleted_at
      then (false, s)
      else (true, record s { loans = put id (record r { deleted_at = some now }) s.loans })
]

unfoldable pub restore_loan : String → Store → Bool × Store
restore_loan id s = elim (get id s.loans) [
  | none ↦ (false, s)
  | some r ↦
      if is_some r.deleted_at
      then (true, record s { loans = put id (record r { deleted_at = none }) s.loans })
      else (false, s)
]

unfoldable pub list_deleted_loans : Store → List LoanRecord
list_deleted_loans s = filter_by (λ r. is_some r.deleted_at) (values s.loans)

-- A loan that holds its collateral: open and not deleted.
abbrev pub pledges : String → LoanRecord → Bool
pledges c r = str_eq r.collateral_id c && is_open r && not (is_some r.deleted_at)

unfoldable pub is_collateral_pledged : String → Store → Bool
is_collateral_pledged c s = any_by (pledges c) (values s.loans)
