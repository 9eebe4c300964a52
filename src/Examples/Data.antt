-- ===== src/Examples/Data.antt =====
-- A small set of tables: one collateral, and one open loan on it.
use stellar_kraal.Common.{none, some, [], ◌∷◌}
use stellar_kraal.Store.Records.{CollateralRecord, LoanRecord, Store}
use stellar_kraal.Store.Records

abbrev pub cow : CollateralRecord
cow = record {
  id = "c1";
  owner = "GA";
  animal_type = "cattle";
  breed = none;
  age_years = none;
  weight_kg = some 400;
  photo_url = none;
  count = 2;
  appraised_value = 1000;
  appraisal_history = [];
  species = none;
  age = none;
  weight = none;
  image_url = none;
  status = some Records.CollateralStatus.pledged;
  created_at = 10;
  deleted_at = none;
}

abbrev pub herd_loan : LoanRecord
herd_loan = record {
  id = "l1";
  borrower = "GA";
  collateral_id = "c1";
  amount = 900;
  status = some Records.LoanStatus.active;
  health_factor = none;
  created_at = 20;
  deleted_at = none;
}

abbrev pub old_loan : LoanRecord
old_loan = record herd_loan { id = "l0"; amount = 300; created_at = 5; deleted_at = some 7 }

abbrev pub herd : Store
herd = record {
  collateral = ("c1", cow) ∷ [];
  loans = ("l0", old_loan) ∷ ("l1", herd_loan) ∷ [];
  transactions = [];
  liquidation_events = [];
}
