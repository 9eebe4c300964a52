-- ===== src/Store/Records.antt =====
-- backend/src/db/store.ts: the records of the four tables. Times are milliseconds since the epoch
-- (the source keeps ISO strings and reads them back with `getTime`); amounts are whole numbers.
use stellar_kraal.Common.{Dict, ℕ, String, Bool, true, false, Option, none, some, List}

-- A ratio of two whole numbers, for the health factors that the source keeps as doubles.
pub record Ratio : Type 0 where
  pub num : ℕ
  pub den : ℕ

pub record AppraisalEntry : Type 0 where
  pub date : ℕ
  pub value : ℕ
  pub appraiser : Option String

pub data CollateralStatus : Type 0 where
  available pledged liquidated : CollateralStatus

pub record CollateralRecord : Type 0 where
  pub id : String
  pub owner : String
  pub animal_type : String
  pub breed : Option String
  pub age_years : Option ℕ
  pub weight_kg : Option ℕ
  pub photo_url : Option String
  pub count : ℕ
  pub appraised_value : ℕ
  pub appraisal_history : List AppraisalEntry
  pub species : Option String
  pub age : Option ℕ
  pub weight : Option ℕ
  pub image_url : Option String
  pub status : Option CollateralStatus
  pub created_at : ℕ
  pub deleted_at : Option ℕ

pub data LoanStatus : Type 0 where
  active at_risk repaid liquidated : LoanStatus

pub record LoanRecord : Type 0 where
  pub id : String
  pub borrower : String
  pub collateral_id : String
  pub amount : ℕ
  pub status : Option LoanStatus
  pub health_factor : Option Ratio
  pub created_at : ℕ
  pub deleted_at : Option ℕ

pub data TransactionType : Type 0 where
  loan repayment liquidation : TransactionType

pub data TransactionStatus : Type 0 where
  pending completed failed : TransactionStatus

pub record TransactionRecord : Type 0 where
  pub id : String
  pub borrower : String
  pub type : TransactionType
  pub status : TransactionStatus
  pub amount : ℕ
  pub loan_id : Option String
  pub collateral_id : Option String
  pub created_at : ℕ
  pub updated_at : ℕ

pub record LiquidationEvent : Type 0 where
  pub id : String
  pub loan_id : String
  pub liquidator : String
  pub repay_amount : ℕ
  pub timestamp : ℕ

-- The in-memory tables.
pub record Store : Type 0 where
  pub collateral : Dict CollateralRecord
  pub loans : Dict LoanRecord
  pub transactions : Dict TransactionRecord
  pub liquidation_events : Dict LiquidationEvent

-- `===` on the string enumerations.
abbrev pub same_loan_status : LoanStatus → LoanStatus → Bool
same_loan_status LoanStatus.active LoanStatus.active = true
same_loan_status LoanStatus.at_risk LoanStatus.at_risk = true
same_loan_status LoanStatus.repaid LoanStatus.repaid = true
same_loan_status LoanStatus.liquidated LoanStatus.liquidated = true
same_loan_status _ _ = false

abbrev pub same_collateral_status : CollateralStatus → CollateralStatus → Bool
same_collateral_status CollateralStatus.available CollateralStatus.available = true
same_collateral_status CollateralStatus.pledged CollateralStatus.pledged = true
same_collateral_status CollateralStatus.liquidated CollateralStatus.liquidated = true
same_collateral_status _ _ = false

abbrev pub same_type : TransactionType → TransactionType → Bool
same_type TransactionType.loan TransactionType.loan = true
same_type TransactionType.repayment TransactionType.repayment = true
same_type TransactionType.liquidation TransactionType.liquidation = true
same_type _ _ = false

abbrev pub same_status : TransactionStatus → TransactionStatus → Bool
same_status TransactionStatus.pending TransactionStatus.pending = true
same_status TransactionStatus.completed TransactionStatus.completed = true
same_status TransactionStatus.failed TransactionStatus.failed = true
same_status _ _ = false

-- `o === x` where the left side may be `undefined`.
abbrev pub holds {ℓ} : {A : Type ℓ} → (A → Bool) → Option A → Bool
holds p none = false
holds p (some a) = p a
