-- ===== src/Frontend/Forms.antt =====
-- The checks of frontend/src/components/LoanForm.tsx and of
-- frontend/src/components/CollateralRegistrationForm.tsx. `trim`, `Number`, `parseInt` and `parseFloat`
-- are arguments; `length` of a text is one too.
use stellar_kraal.Common.{
  ltb, str_eq, if◌then◌else◌, Bool-cases, is_some, ℕ, ◌≤◌, String, ◌≡◌, refl, ap, Bool, true, false,
  not, ◌||◌, Option, none, some, arith,
}

-- A number of JavaScript: `fraction n` lies between n and n + 1.
pub data Num : Type 0 where
  nan infinite negative : Num
  whole fraction : ℕ → Num

abbrev pub is_whole : Num → Bool
is_whole (whole n) = true
is_whole _ = false

-- `!Number.isFinite(x) || x <= 0`
abbrev pub is_not_positive : Num → Bool
is_not_positive (whole n) = ltb n 1
is_not_positive (fraction n) = false
is_not_positive _ = true

-- `!Number.isInteger(x) || x < 1`
abbrev pub is_below_one : Num → Bool
is_below_one (whole n) = ltb n 1
is_below_one _ = true

-- `x > most` and `x < least` of a whole number.
abbrev pub above : ℕ → Num → Bool
above most (whole n) = ltb most n
above most _ = false

abbrev pub below : ℕ → Num → Bool
below least (whole n) = ltb n least
below least _ = false

module _ (trim : String → String) (number : String → Num) where
  unfoldable pub validate_count : String → Option String
  validate_count v =
      if str_eq (trim v) ""
      then some "Count is required."
      else if is_below_one (number v)
      then some "Count must be a whole number of at least 1."
      else if above 10000 (number v)
      then some "Count cannot exceed 10,000."
      else none

  unfoldable pub validate_appraised_value : String → Option String
  validate_appraised_value v =
      if str_eq (trim v) ""
      then some "Appraised value is required."
      else if is_not_positive (number v)
      then some "Appraised value must be a positive number."
      else if not (is_whole (number v))
      then some "Appraised value must be a whole number of stroops."
      else none

  unfoldable pub validate_collateral_id : String → Option String
  validate_collateral_id v =
      if str_eq (trim v) ""
      then some "Collateral ID is required."
      else if is_below_one (number v)
      then some "Collateral ID must be a positive integer."
      else none

  unfoldable pub validate_loan_amount : String → Option String
  validate_loan_amount v =
      if str_eq (trim v) ""
      then some "Loan amount is required."
      else if is_not_positive (number v)
      then some "Loan amount must be a positive number."
      else if not (is_whole (number v))
      then some "Loan amount must be a whole number of stroops."
      else if below 1000 (number v)
      then some "Loan amount must be at least 1,000 stroops."
      else none

  -- `collateralHasErrors` and `loanHasErrors`
  abbrev pub collateral_has_errors : String → String → Bool
  collateral_has_errors count value =
      is_some (validate_count count) || is_some (validate_appraised_value value)

  abbrev pub loan_has_errors : String → String → Bool
  loan_has_errors collateral_id amount =
      is_some (validate_collateral_id collateral_id) || is_some (validate_loan_amount amount)

whole-below_one : (x : Num) → is_below_one x ≡ false → (n : ℕ) × (x ≡ whole n) × (1 ≤ n)
whole-below_one (whole n) h = (n, refl, ground (arith, h))
whole-below_one nan h = cc
whole-below_one infinite h = cc
whole-below_one negative h = cc
whole-below_one (fraction n) h = cc

whole-positive :
    (x : Num)
    → is_not_positive x ≡ false
    → not (is_whole x) ≡ false
    → (n : ℕ) × (x ≡ whole n) × (1 ≤ n)
whole-positive (whole n) h k = (n, refl, ground (arith, h))
whole-positive nan h k = cc
whole-positive infinite h k = cc
whole-positive negative h k = cc
whole-positive (fraction n) h k = cc

-- A test that lets through has not stopped anything.
pub next_test :
    (b : Bool) (e : String) (rest : Option String)
    → (if b then some e else rest) ≡ none
    → (b ≡ false) × (rest ≡ none)
next_test true e rest h = cc
next_test false e rest h = (refl, h)

Option-none : {A : Type 0} (o : Option A) → is_some o ≡ false → o ≡ none
Option-none none h = refl
Option-none (some a) h = cc

module _ (trim : String → String) (number : String → Num) where
  validate_count-none :
      (v : String)
      → validate_count trim number v ≡ none
      → (n : ℕ) × (number v ≡ whole n) × (1 ≤ n) × (n ≤ 10000)
  unfolding validate_count
  validate_count-none v ok =
      let first = next_test (str_eq (trim v) "") _ _ ok in
      let second = next_test (is_below_one (number v)) _ _ first.1 in
      let third = next_test (above 10000 (number v)) _ _ second.1 in
      let (n, e, one) = whole-below_one (number v) second.0 in
      (n, e, one, ground (arith, ap (above 10000) e, third.0))

  validate_appraised_value-none :
      (v : String)
      → validate_appraised_value trim number v ≡ none
      → (n : ℕ) × (number v ≡ whole n) × (1 ≤ n)
  unfolding validate_appraised_value
  validate_appraised_value-none v ok =
      let first = next_test (str_eq (trim v) "") _ _ ok in
      let second = next_test (is_not_positive (number v)) _ _ first.1 in
      let third = next_test (not (is_whole (number v))) _ _ second.1 in
      whole-positive (number v) second.0 third.0

  validate_collateral_id-none :
      (v : String)
      → validate_collateral_id trim number v ≡ none
      → (n : ℕ) × (number v ≡ whole n) × (1 ≤ n)
  unfolding validate_collateral_id
  validate_collateral_id-none v ok =
      let first = next_test (str_eq (trim v) "") _ _ ok in
      let second = next_test (is_below_one (number v)) _ _ first.1 in
      whole-below_one (number v) second.0

  validate_loan_amount-none :
      (v : String)
      → validate_loan_amount trim number v ≡ none
      → (n : ℕ) × (number v ≡ whole n) × (1000 ≤ n)
  unfolding validate_loan_amount
  validate_loan_amount-none v ok =
      let first = next_test (str_eq (trim v) "") _ _ ok in
      let second = next_test (is_not_positive (number v)) _ _ first.1 in
      let third = next_test (not (is_whole (number v))) _ _ second.1 in
      let fourth = next_test (below 1000 (number v)) _ _ third.1 in
      let (n, e, one) = whole-positive (number v) second.0 third.0 in
      (n, e, ground (arith, ap (below 1000) e, fourth.0))

  -- A collateral without errors has a whole number of 1 to 10,000 animals and a whole value of at least
  -- one stroop.
  pub collateral_has_errors_lem :
      (count value : String)
      → collateral_has_errors trim number count value ≡ false
      → ((n : ℕ) × (number count ≡ whole n) × (1 ≤ n) × (n ≤ 10000))
        × ((m : ℕ) × (number value ≡ whole m) × (1 ≤ m))
  collateral_has_errors_lem count value ok =
      let a : is_some (validate_count trim number count) ≡ false =
        ground (arith, ok, Bool-cases (is_some (validate_count trim number count))) in
      let b : is_some (validate_appraised_value trim number value) ≡ false =
        ground (arith, ok, Bool-cases (is_some (validate_count trim number count))) in
      (
        validate_count-none count (Option-none _ a),
        validate_appraised_value-none value (Option-none _ b),
      )

  -- A loan without errors names a collateral by a whole number and asks for at least 1,000 stroops.
  pub loan_has_errors_lem :
      (collateral_id amount : String)
      → loan_has_errors trim number collateral_id amount ≡ false
      → ((n : ℕ) × (number collateral_id ≡ whole n) × (1 ≤ n))
        × ((m : ℕ) × (number amount ≡ whole m) × (1000 ≤ m))
  loan_has_errors_lem collateral_id amount ok =
      let a : is_some (validate_collateral_id trim number collateral_id) ≡ false =
        ground
          (arith, ok, Bool-cases (is_some (validate_collateral_id trim number collateral_id))) in
      let b : is_some (validate_loan_amount trim number amount) ≡ false =
        ground
          (arith, ok, Bool-cases (is_some (validate_collateral_id trim number collateral_id))) in
      (
        validate_collateral_id-none collateral_id (Option-none _ a),
        validate_loan_amount-none amount (Option-none _ b),
      )
