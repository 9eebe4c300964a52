-- ===== src/Examples/Tables.antt =====
-- The theorems on backend/src/db/store.ts at a small set of tables.
use stellar_kraal.Common.{
  length, filter_by, values, sort_desc, IsSorted, zero, suc, ◌-◌, ◌≤◌, refl, some, List, [], ◌∷◌,
  Perm, arith,
}
use stellar_kraal.Store.Records.{LoanRecord}
use stellar_kraal.Store.Loans.{no_loan_filters, matching_loans, list_loans}
use stellar_kraal.Store.Matching.{meets_loan_filters, loan_pages_complete}
use stellar_kraal.Store.Pages.{loan_pages, list_loans_bounds}
use stellar_kraal.Store.Calls.{Call, soft_delete_loan_call, restore_loan_call, IsKeyed}
use stellar_kraal.Examples.Data.{herd}

loan_pages_complete_example :
    Perm
      (loan_pages 1 no_loan_filters herd)
      (filter_by (meets_loan_filters no_loan_filters) (values herd.loans))
    × IsSorted (λ (r : LoanRecord). r.created_at) (loan_pages 1 no_loan_filters herd)
unfolding list_loans matching_loans values stellar_kraal.Common.sort_desc
loan_pages_complete_example = loan_pages_complete 1 no_loan_filters herd (omega arith)

list_loans_bounds_example :
    (length (list_loans no_loan_filters herd).rows ≤ (list_loans no_loan_filters herd).limit)
    × ((list_loans no_loan_filters herd).limit ≤ 100)
list_loans_bounds_example = list_loans_bounds no_loan_filters herd

abbrev pub some_calls : List Call
some_calls = soft_delete_loan_call 30 "l1" ∷ restore_loan_call "l0" ∷ []

pub herd-IsKeyed : IsKeyed herd
herd-IsKeyed = record {
  collateral = (refl, tt);
  loans = (refl, (refl, tt));
  transactions = tt;
  liquidation_events = tt;
}
