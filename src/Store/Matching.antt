-- ===== src/Store/Matching.antt =====
-- backend/src/db/store.ts: the filters of a listing against one test of a row.
use stellar_kraal.Common.{
  str_eq, is_some, filter_by, values, IsSorted, sort_desc-IsSorted, sort_desc-perm, ℕ, ◌*◌, ◌≤◌,
  ◌≡◌, refl, sym, ap, Bool, true, not, ◌&&◌, Option, none, some, List, [], ◌∷◌, Perm, arith,
}
use stellar_kraal.Store.Records.{LoanRecord, CollateralRecord, Store, same_collateral_status, holds}
use stellar_kraal.Store.Paging.{truthy, filter_given, not_before, not_after}
use stellar_kraal.Store.Loans.{LoanFilters, status_is, matching_loans, list_loans}
use stellar_kraal.Store.Collateral.{CollateralFilters, matching_collateral, list_collateral}
use stellar_kraal.Store.Pages.{loan_pages, loan_pages_lem, collateral_pages, collateral_pages_lem}

-- A filter that is not given lets all rows through.
abbrev pub passes {ℓ κ} : {A : Type ℓ} {F : Type κ} → Option F → (F → A → Bool) → A → Bool
passes none test x = true
passes (some f) test x = test f x

-- The rows that a loan listing is for: not deleted, and meeting each filter that is given.
abbrev pub meets_loan_filters : LoanFilters → LoanRecord → Bool
meets_loan_filters f r =
    not (is_some r.deleted_at)
    && passes f.status status_is r
    && passes (truthy f.borrower_address) (λ b x. str_eq x.borrower b) r
    && passes f.from (λ d x. not_before d x.created_at) r
    && passes f.to (λ d x. not_after d x.created_at) r

abbrev pub meets_collateral_filters : CollateralFilters → CollateralRecord → Bool
meets_collateral_filters f r =
    not (is_some r.deleted_at)
    && passes f.status (λ st x. holds (λ y. same_collateral_status y st) x.status) r
    && passes (truthy f.owner_id) (λ o x. str_eq x.owner o) r

module _ {ℓ} {A : Type ℓ} where
  filter_by-true : (xs : List A) → filter_by (λ x. true) xs ≡ xs
  filter_by-true [] = refl
  filter_by-true (x ∷ xs) = ap (λ ys. x ∷ ys) (filter_by-true xs)

  pub filter_by-filter_by :
      (p q : A → Bool) (xs : List A) → filter_by q (filter_by p xs) ≡ filter_by (λ x. p x && q x) xs
  filter_by-filter_by p q [] = refl
  filter_by-filter_by p q (x ∷ xs) = ground (arith, filter_by-filter_by p q xs)

  filter_given-eq :
      {F : Type 0} (f : Option F) (test : F → A → Bool) (xs : List A)
      → filter_given f test xs ≡ filter_by (passes f test) xs
  unfolding filter_given
  filter_given-eq none test xs = sym (filter_by-true xs)
  filter_given-eq (some f) test xs = refl

pub matching_loans-eq :
    (f : LoanFilters) (s : Store)
    → matching_loans f s ≡ filter_by (meets_loan_filters f) (values s.loans)
unfolding matching_loans
matching_loans-eq f s = simp (filter_given-eq, filter_by-filter_by)

pub matching_collateral-eq :
    (f : CollateralFilters) (s : Store)
    → matching_collateral f s ≡ filter_by (meets_collateral_filters f) (values s.collateral)
unfolding matching_collateral
matching_collateral-eq f s = simp (filter_given-eq, filter_by-filter_by)

-- Reading a loan listing from page 1, with enough pages to reach its total, gives the loans that
-- are not deleted and meet every given filter, each one as often as the table holds it, and newest
-- first.
pub loan_pages_complete :
    (k : ℕ) (f : LoanFilters) (s : Store)
    → (list_loans f s).total ≤ k * (list_loans f s).limit
    → Perm (loan_pages k f s) (filter_by (meets_loan_filters f) (values s.loans))
      × IsSorted (λ r. r.created_at) (loan_pages k f s)
loan_pages_complete k f s h = (
  rw (loan_pages_lem k f s h, ← matching_loans-eq f s)
      (sort_desc-perm (λ r. r.created_at) (matching_loans f s)),
  rw (loan_pages_lem k f s h) (sort_desc-IsSorted (λ r. r.created_at) (matching_loans f s)),
)

-- Reading a collateral listing from page 1, with enough pages to reach its total, gives the records
-- that are not deleted and meet every given filter, each one as often as the table holds it, and
-- newest first.
pub collateral_pages_complete :
    (k : ℕ) (f : CollateralFilters) (s : Store)
    → (list_collateral f s).total ≤ k * (list_collateral f s).limit
    → Perm (collateral_pages k f s) (filter_by (meets_collateral_filters f) (values s.collateral))
      × IsSorted (λ r. r.created_at) (collateral_pages k f s)
collateral_pages_complete k f s h = (
  rw (collateral_pages_lem k f s h, ← matching_collateral-eq f s)
      (sort_desc-perm (λ r. r.created_at) (matching_collateral f s)),
  rw (collateral_pages_lem k f s h)
      (sort_desc-IsSorted (λ r. r.created_at) (matching_collateral f s)),
)
