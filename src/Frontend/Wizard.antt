-- ===== src/Frontend/Wizard.antt =====
-- frontend/src/context/LoanWizardContext.tsx, and the check of
-- frontend/src/components/wizard/steps/StepAmount.tsx. `parse` is `parseInt`, with `none` for NaN and a
-- negative number read as 0; `seventy` is `Math.floor(v * 0.7)`. The list of collateral items, which the
-- context declares and never sets, is in Items.
pub mod Laws
use stellar_kraal.Common.{
  ◌<>◌, ltb, ◌==◌, str_eq, if◌then◌else◌, ℕ, zero, suc, ◌+◌, ◌-◌, ◌%◌, ◌<◌, min, max, String, ap,
  Bool, true, false, not, ◌&&◌, ◌||◌, Option, none, some, List, [], ◌∷◌,
}
use stellar_kraal.Frontend.Items.{AnimalType, cattle}

pub record WizardState : Type 0 where
  pub animal_type : AnimalType
  pub count : String
  pub appraised_value : String
  pub collateral_id : String
  pub loan_amount : String
  pub loan_term_days : String
  pub step : ℕ
  pub loading : Bool
  pub error : Option String

abbrev pub defaults : WizardState
defaults = record {
  animal_type = cattle;
  count = "";
  appraised_value = "";
  collateral_id = "";
  loan_amount = "";
  loan_term_days = "30";
  step = 1;
  loading = false;
  error = none;
}

-- What `JSON.parse` makes of the text in localStorage.
pub data Stored : Type 0 where
  unreadable : Stored
  readable : WizardState → Stored

-- The provider and the entry of localStorage.
pub record Provider : Type 0 where
  pub state : WizardState
  pub mounted : Bool
  pub storage : Option Stored

-- The first render, before any effect.
abbrev pub first_render : Option Stored → Provider
first_render storage = record { state = defaults; mounted = false; storage = storage }

-- The effect on mount.
unfoldable pub load : Provider → Provider
load p = elim p.storage [
  | none ↦ record p { mounted = true }
  | some unreadable ↦ record p { mounted = true }
  | some (readable s) ↦ record p { state = s; mounted = true }
]

-- The effect on a change of the state.
unfoldable pub save : Provider → Provider
save p = if p.mounted then record p { storage = some (readable p.state) } else p

-- Both effects, as the first renders run them.
abbrev pub mount : Provider → Provider
mount p = save (load p)

-- `setField` with the keys and values of its callers.
pub data Field : Type 0 where
  field_count field_appraised_value field_collateral_id : String → Field
  field_loan_amount field_loan_term_days : String → Field
  field_loading : Bool → Field
  field_error : Option String → Field

unfoldable pub set_field : Field → WizardState → WizardState
set_field (field_count t) s = record s { count = t }
set_field (field_appraised_value t) s = record s { appraised_value = t }
set_field (field_collateral_id t) s = record s { collateral_id = t }
set_field (field_loan_amount t) s = record s { loan_amount = t }
set_field (field_loan_term_days t) s = record s { loan_term_days = t }
set_field (field_loading b) s = record s { loading = b }
set_field (field_error e) s = record s { error = e }

pub data Action : Type 0 where
  sets : Field → Action
  nexts prevs resets amount_nexts : Action

abbrev pub prev_step : WizardState → WizardState
prev_step s = record s { step = max (s.step - 1) 1; error = none }

module _ (parse : String → Option ℕ) where
  -- `!!t && parseInt(t) > 0`; a comparison with NaN is false.
  abbrev pub is_positive : String → Bool
  is_positive t = not (str_eq t "") && elim (parse t) [ none ↦ false | some n ↦ ltb 0 n ]

  unfoldable pub can_proceed : WizardState → Bool
  can_proceed s =
      if s.step == 1
      then is_positive s.count && is_positive s.appraised_value
      else if s.step == 2
      then is_positive s.loan_amount
      else true

  unfoldable pub next_step : WizardState → WizardState
  unfolding can_proceed
  next_step s = if can_proceed s then record s { step = min (s.step + 1) 4; error = none } else s

module _ (parse : String → Option ℕ) (seventy : ℕ → ℕ) where
  -- `Math.floor(parseInt(appraisedValue) * 0.7)`; `none` is NaN.
  unfoldable pub max_loan : WizardState → Option ℕ
  max_loan s =
      if str_eq s.appraised_value ""
      then some 0
      else elim (parse s.appraised_value) [ none ↦ none | some v ↦ some (seventy v) ]

  abbrev pub exceeds : Option ℕ → Option ℕ → Bool
  exceeds (some n) (some most) = ltb most n
  exceeds n most = false

  -- `validate` of StepAmount; `show` prints a number, and NaN. A comparison with NaN is false.
  unfoldable pub validate_amount : (Option ℕ → String) → WizardState → Option String
  unfolding max_loan
  validate_amount show s =
      if str_eq s.loan_amount "" || elim (parse s.loan_amount) [ none ↦ false | some n ↦ ltb n 1 ]
      then some "Please enter a loan amount."
      else if exceeds (parse s.loan_amount) (max_loan s)
      then some ("Loan amount cannot exceed " <> show (max_loan s) <> " stroops (70% LTV).")
      else none

  -- `handleNext` of StepAmount.
  unfoldable pub handle_next : (Option ℕ → String) → WizardState → WizardState
  unfolding validate_amount next_step set_field
  handle_next show s = elim (validate_amount show s) [
    | some e ↦ set_field (field_error (some e)) s
    | none ↦ next_step parse (set_field (field_error none) s)
  ]

  -- A handler, and the effect that follows its change. (React leaves the effect out where a reset finds
  -- the form untouched.)
  unfoldable pub act : (Option ℕ → String) → Action → Provider → Provider
  unfolding set_field next_step handle_next save
  act show (sets f) p = save (record p { state = set_field f p.state })
  act show nexts p = save (record p { state = next_step parse p.state })
  act show prevs p = save (record p { state = prev_step p.state })
  act show amount_nexts p = save (record p { state = handle_next show p.state })
  act show resets p = save (record p { state = defaults; storage = none })

  abbrev pub run : (Option ℕ → String) → List Action → Provider → Provider
  run show [] p = p
  run show (a ∷ as') p = run show as' (act show a p)
