-- ===== src/Store/Transactions.antt =====
-- backend/src/db/store.ts: the transaction table and the liquidation events. The generated id
-- (`tx_<time>_<random>`, `liq_<time>_<random>`) and the clock are arguments.
use stellar_kraal.Common.{
  str_eq, length, filter_by, get, put, values, sort_desc, ℕ, ◌+◌, ◌-◌, ◌*◌, String, Option, none,
  some, List,
}
use stellar_kraal.Store.Records.{
  TransactionType, TransactionStatus, TransactionRecord, LiquidationEvent, Store, same_type,
  same_status, holds,
}
use stellar_kraal.Store.Paging.{
  Page, slice, given, or_keep, truthy, given_nonzero, filter_given, DateBound, not_before,
  not_after,
}

-- The argument of `insertTransaction`.
pub record TransactionInput : Type 0 where
  pub borrower : String
  pub type : TransactionType
  pub status : TransactionStatus
  pub amount : ℕ
  pub loan_id : Option String
  pub collateral_id : Option String

abbrev pub new_transaction : ℕ → String → TransactionInput → TransactionRecord
new_transaction now id d = record {
  id = id;
  borrower = d.borrower;
  type = d.type;
  status = d.status;
  amount = d.amount;
  loan_id = d.loan_id;
  collateral_id = d.collateral_id;
  created_at = now;
  updated_at = now;
}

unfoldable pub insert_transaction :
    ℕ → String → TransactionInput → Store → TransactionRecord × Store
insert_transaction now id d s = (
  new_transaction now id d,
  record s { transactions = put id (new_transaction now id d) s.transactions },
)

pub record TransactionFilters : Type 0 where
  pub borrower : Option String
  pub type : Option TransactionType
  pub status : Option TransactionStatus
  pub loan_id : Option String
  pub collateral_id : Option String
  pub start_date : Option DateBound
  pub end_date : Option DateBound
  pub page : Option ℕ
  pub page_size : Option ℕ

unfoldable pub matching_transactions : TransactionFilters → Store → List TransactionRecord
unfolding filter_given
matching_transactions f s =
    let all = values s.transactions in
    let a = filter_given (truthy f.borrower) (λ b t. str_eq t.borrower b) all in
    let b = filter_given f.type (λ x t. same_type t.type x) a in
    let c = filter_given f.status (λ x t. same_status t.status x) b in
    let d = filter_given (truthy f.loan_id) (λ x t. holds (λ y. str_eq y x) t.loan_id) c in
    let e =
      filter_given (truthy f.collateral_id) (λ x t. holds (λ y. str_eq y x) t.collateral_id) d in
    let g = filter_given f.start_date (λ x t. not_before x t.created_at) e in
    filter_given f.end_date (λ x t. not_after x t.created_at) g

unfoldable pub list_transactions : TransactionFilters → Store → Page TransactionRecord
unfolding slice
list_transactions f s =
    let page_size = given_nonzero f.page_size 20 in
    let page = given_nonzero f.page 1 in
    let results = sort_desc (λ t. t.created_at) (matching_transactions f s) in
    let start = (page - 1) * page_size in
    record {
      rows = slice start (start + page_size) results;
      total = length results;
      page = page;
      limit = page_size;
    }

unfoldable pub get_transaction : String → Store → Option TransactionRecord
get_transaction id s = get id s.transactions

-- `Partial<…>`: the fields that are present, without `updatedAt`, which the update overwrites.
pub record TransactionUpdates : Type 0 where
  pub borrower : Option String
  pub type : Option TransactionType
  pub status : Option TransactionStatus
  pub amount : Option ℕ
  pub loan_id : Option String
  pub collateral_id : Option String

-- `{ ...record, ...updates, updatedAt }`
abbrev pub merge_transaction : ℕ → TransactionRecord → TransactionUpdates → TransactionRecord
merge_transaction now r u = record r {
  borrower = given u.borrower r.borrower;
  type = given u.type r.type;
  status = given u.status r.status;
  amount = given u.amount r.amount;
  loan_id = or_keep u.loan_id r.loan_id;
  collateral_id = or_keep u.collateral_id r.collateral_id;
  updated_at = now;
}

unfoldable pub update_transaction :
    ℕ → String → TransactionUpdates → Store → Option TransactionRecord × Store
update_transaction now id u s = elim (get id s.transactions) [
  | none ↦ (none, s)
  | some r ↦ (
    some (merge_transaction now r u),
    record s { transactions = put id (merge_transaction now r u) s.transactions },
  )
]

-- The argument of `insertLiquidationEvent`.
pub record LiquidationInput : Type 0 where
  pub loan_id : String
  pub liquidator : String
  pub repay_amount : ℕ

abbrev pub new_liquidation_event : ℕ → String → LiquidationInput → LiquidationEvent
new_liquidation_event now id d = record {
  id = id;
  loan_id = d.loan_id;
  liquidator = d.liquidator;
  repay_amount = d.repay_amount;
  timestamp = now;
}

unfoldable pub insert_liquidation_event :
    ℕ → String → LiquidationInput → Store → LiquidationEvent × Store
insert_liquidation_event now id d s = (
  new_liquidation_event now id d,
  record s { liquidation_events = put id (new_liquidation_event now id d) s.liquidation_events },
)

unfoldable pub get_liquidation_events : String → Store → List LiquidationEvent
get_liquidation_events loan_id s =
    filter_by (λ e. str_eq e.loan_id loan_id) (values s.liquidation_events)
