-- ===== src/Store/Summary.antt =====
-- backend/src/db/store.ts: the borrower's dashboard metrics, in exact arithmetic.
use stellar_kraal.Common.{
  ltb, ◌==◌, str_eq, if◌then◌else◌, is_some, length, filter_by, Dict, get, values, ℕ, ◌+◌, ◌*◌, ◌/◌,
  String, Bool, false, not, ◌&&◌, ◌||◌, Option, none, some, List, [], ◌∷◌,
}
use stellar_kraal.Store.Records.{Ratio, LoanRecord, CollateralRecord, Store}
use stellar_kraal.Store.Loans.{is_open}

pub record LoanSummary : Type 0 where
  pub active_loans : ℕ
  pub total_collateral_value : ℕ
  -- `toFixed(4)`: in units of 0.0001
  pub average_health_factor : ℕ
  pub at_risk_count : ℕ

-- `value <= 0`, or no number, gives `null`; above 100 the value counts as basis points. A ratio
-- with denominator 0 stands for no number.
unfoldable pub normalize_health_factor : Option Ratio → Option Ratio
normalize_health_factor none = none
normalize_health_factor (some v) =
    if v.num == 0 || v.den == 0
    then none
    else if ltb (100 * v.den) v.num
    then some (record { num = v.num; den = v.den * 10000 })
    else some v

abbrev pub add_ratio : Ratio → Ratio → Ratio
add_ratio a b = record { num = a.num * b.den + b.num * a.den; den = a.den * b.den }

unfoldable pub sum_ratios : List Ratio → Ratio
sum_ratios [] = record { num = 0; den = 1 }
sum_ratios (r ∷ rs) = add_ratio r (sum_ratios rs)

unfoldable pub normalized : List LoanRecord → List Ratio
unfolding normalize_health_factor
normalized [] = []
normalized (l ∷ ls) = elim (normalize_health_factor l.health_factor) [
  | none ↦ normalized ls
  | some r ↦ r ∷ normalized ls
]

-- `Number((sum / n).toFixed(4))` in units of 0.0001: the nearest whole number, the larger of two.
unfoldable pub to_fixed4 : Ratio → ℕ → ℕ
to_fixed4 r n = (20000 * r.num + r.den * n) / (2 * (r.den * n))

-- The loans of one borrower that are open and not deleted.
unfoldable pub borrower_loans : String → Store → List LoanRecord
borrower_loans b s =
    filter_by (λ r. not (is_some r.deleted_at) && (str_eq r.borrower b && is_open r))
      (values s.loans)

-- What one loan adds to the collateral total.
unfoldable pub collateral_share : Dict CollateralRecord → LoanRecord → ℕ
collateral_share m l = elim (get l.collateral_id m) [
  | none ↦ 0
  | some c ↦ if is_some c.deleted_at then 0 else c.appraised_value
]

unfoldable pub total_collateral : ℕ → Dict CollateralRecord → List LoanRecord → ℕ
unfolding collateral_share
total_collateral sum m [] = sum
total_collateral sum m (l ∷ ls) = total_collateral (sum + collateral_share m l) m ls

-- `hf !== null && hf < 1.2`
unfoldable pub is_risky : LoanRecord → Bool
unfolding normalize_health_factor
is_risky l = elim (normalize_health_factor l.health_factor) [
  | none ↦ false
  | some r ↦ ltb (10 * r.num) (12 * r.den)
]

unfoldable pub get_loan_summary_for_borrower : String → Store → LoanSummary
unfolding borrower_loans total_collateral normalized sum_ratios to_fixed4 is_risky
get_loan_summary_for_borrower b s =
    let loans = borrower_loans b s in
    let factors = normalized loans in
    record {
      active_loans = length loans;
      total_collateral_value = total_collateral 0 s.collateral loans;
      average_health_factor =
          if ltb 0 (length factors) then to_fixed4 (sum_ratios factors) (length factors) else 0;
      at_risk_count = length (filter_by is_risky loans);
    }
