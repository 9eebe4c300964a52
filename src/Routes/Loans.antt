-- ===== src/Routes/Loans.antt =====
-- Loan routes of backend/src/index.ts: the repayment preview, the estimate, the listing, and the
-- deletion and restoration by an administrator. What the contract answers is an argument.
use stellar_kraal.Common.{
  ltb, ◌==◌, if◌then◌else◌, ℕ, ◌+◌, ◌-◌, ◌*◌, ◌/◌, ◌≤◌, min, String, ◌≡◌, refl, ◌↔◌, ◌⊎◌, Bool,
  true, not, ◌||◌, Option, none, some, List, arith,
}
use stellar_kraal.Http.{User, key_of, Reply, reply, refuse}
use stellar_kraal.Auth.ApiKey.{known_key}
use stellar_kraal.Store.Records.{LoanRecord, CollateralRecord, Store}
use stellar_kraal.Store.Paging.{Page}
use stellar_kraal.Store.Collateral.{list_collateral}
use stellar_kraal.Store.Loans.{no_loan_filters, list_loans, soft_delete_loan, restore_loan}
use stellar_kraal.Loans.Interest.Laws.{mul_mono}
use stellar_kraal.Store.Summary.{LoanSummary, get_loan_summary_for_borrower}

-- `parseLoanFromSimulation`'s result.
pub record ParsedLoan : Type 0 where
  pub principal : ℕ
  pub outstanding : ℕ
  pub collateral_value : ℕ

pub record Preview : Type 0 where
  pub repayment_amount : ℕ
  pub principal : ℕ
  pub interest : ℕ
  pub fees : ℕ
  pub remaining_balance : ℕ
  pub projected_health_factor_bps : Option ℕ
  pub fully_repaid : Bool

-- `interestFeeBps`: the default, unless the contract's configuration was read.
abbrev pub default_interest_fee_bps : ℕ
default_interest_fee_bps = 1000

abbrev pub interest_fee_bps : Option ℕ → ℕ
interest_fee_bps none = default_interest_fee_bps
interest_fee_bps (some bps) = bps

-- What the source computes between the two reads and the answer. (Express runs the first of the two
-- registrations of the route.)
unfoldable pub repayment_preview : ℕ → ParsedLoan → Option ℕ → Preview
repayment_preview amount parsed config =
    let capped = min amount parsed.outstanding in
    let interest_paid = min capped (parsed.outstanding - parsed.principal) in
    let remaining = parsed.outstanding - capped in
    record {
      repayment_amount = capped;
      principal = capped - interest_paid;
      interest = interest_paid;
      fees = (interest_paid * interest_fee_bps config) / 10000;
      remaining_balance = remaining;
      projected_health_factor_bps =
          if remaining == 0
          then none
          else some ((parsed.collateral_value * 8000 * 10000) / (remaining * 10000));
      fully_repaid = remaining == 0;
    }

abbrev pub one_xlm_stroops : ℕ
one_xlm_stroops = 10000000

-- The interest rate is left in basis points, where the source divides by 100.
pub record Estimate : Type 0 where
  pub principal : ℕ
  pub origination_fee : ℕ
  pub total_amount : ℕ
  pub interest_rate_bps : ℕ

-- POST /api/v1/loans/estimate behind its schema
unfoldable pub estimate_loan : ℕ → ℕ → Reply Estimate
estimate_loan orig_fee_bps principal =
    if ltb principal one_xlm_stroops
    then refuse 400 "Validation failed"
    else reply 200 (record {
      principal = principal;
      origination_fee = (principal * orig_fee_bps) / 10000;
      total_amount = principal + (principal * orig_fee_bps) / 10000;
      interest_rate_bps = orig_fee_bps;
    })

-- GET /api/loans; `none` for a page or a size that is no integer
unfoldable pub list_loans_route : Option ℕ → Option ℕ → Store → Reply (Page LoanRecord)
list_loans_route page limit s = elim page [
  | none ↦ refuse 400 "page must be a positive integer"
  | some p ↦ if p == 0 then refuse 400 "page must be a positive integer" else elim limit [
    | none ↦ refuse 400 "pageSize must be between 1 and 100"
    | some l ↦
        if l == 0 || ltb 100 l
        then refuse 400 "pageSize must be between 1 and 100"
        else reply 200 (list_loans (record no_loan_filters { page = some p; limit = some l }) s)
  ]
]

-- GET /api/borrowers/:wallet
unfoldable pub borrower_profile : String → Store → List CollateralRecord × List LoanRecord
borrower_profile wallet s = (
  (list_collateral
      (record { status = none; owner_id = some wallet; page = some 1; limit = some 100 }) s).rows,
  (list_loans
      (record no_loan_filters { borrower_address = some wallet; page = some 1; limit = some 100 })
      s).rows,
)

-- GET /api/v1/loans/summary
unfoldable pub loan_summary_route : Option User → Store → Reply LoanSummary
loan_summary_route user s = elim (known_key (key_of user)) [
  | none ↦ refuse 401 "Authenticated wallet address required"
  | some key ↦ reply 200 (get_loan_summary_for_borrower key s)
]

-- DELETE /api/loan/:id
unfoldable pub delete_loan_route : ℕ → String → Store → Reply String × Store
delete_loan_route now id s =
    let (ok, s') = soft_delete_loan now id s in
    if not ok then (refuse 404 "Record not found", s') else (reply 200 id, s')

-- POST /api/admin/restore/loans/:id
unfoldable pub restore_loan_route : String → Store → Reply String × Store
restore_loan_route id s =
    let (ok, s') = restore_loan id s in
    if not ok then (refuse 404 "Record not found or not deleted", s') else (reply 200 id, s')

-- A fee of at most the whole is at most what it is taken from.
fee_le : (k u : ℕ) → u ≤ 10000 → (k * u) / 10000 ≤ k
fee_le k u h = let le : k * u ≤ k * 10000 = mul_mono k u 10000 h in omega arith

-- A preview adds up: the repayment is no more than is asked and owed, it is split into principal and
-- interest, interest first, what remains is what is owed without it, and with a fee of at most 10000
-- basis points the fees are no more than the interest.
pub repayment_preview_lem :
    (amount : ℕ) (parsed : ParsedLoan) (config : Option ℕ)
    → interest_fee_bps config ≤ 10000
    → let p = repayment_preview amount parsed config in
      (p.repayment_amount ≤ amount)
      × (p.principal + p.interest ≡ p.repayment_amount)
      × (p.repayment_amount + p.remaining_balance ≡ parsed.outstanding)
      × ((p.principal ≡ 0) ⊎ (p.interest ≡ parsed.outstanding - parsed.principal))
      × (p.fees ≤ p.interest)
      × ((p.fully_repaid ≡ true) ↔ (parsed.outstanding ≤ amount))
unfolding repayment_preview
repayment_preview_lem amount parsed config h =
    let owed = parsed.outstanding - parsed.principal in
    (
      omega arith,
      omega arith,
      omega arith,
      ground arith,
      fee_le (min (min amount parsed.outstanding) owed) (interest_fee_bps config) h,
      ground arith,
    )

half_fee : (k u : ℕ) → u ≤ 5000 → 2 * ((k * u) / 10000) ≤ k
half_fee k u h = let le : k * u ≤ k * 5000 = mul_mono k u 5000 h in omega arith

-- An estimate is given exactly from one XLM on, and then its fee is the total less the principal, and
-- of at most one half of the principal if the configured fee is at most 5000 basis points.
pub estimate_loan_lem :
    (orig_fee_bps principal : ℕ)
    → orig_fee_bps ≤ 5000
    → one_xlm_stroops ≤ principal
    → (e : Estimate) × (estimate_loan orig_fee_bps principal ≡ reply 200 e)
      × (e.principal + e.origination_fee ≡ e.total_amount)
      × (2 * e.origination_fee ≤ principal)
unfolding estimate_loan
estimate_loan_lem bps principal h k = (
  record {
    principal = principal;
    origination_fee = (principal * bps) / 10000;
    total_amount = principal + (principal * bps) / 10000;
    interest_rate_bps = bps;
  },
  ground arith,
  refl,
  half_fee principal bps h,
)
