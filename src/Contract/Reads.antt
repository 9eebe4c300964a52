-- ===== src/Contract/Reads.antt =====
-- The reads of the contract by simulation: GET /api/loan/:id, GET /api/health/:loanId and POST
-- /api/loan/repayment-preview of backend/src/index.ts, with the decoding of what comes back. What
-- `getAccount`, `simulateTransaction` and `scValToNative` come back with is an argument, and so is
-- `Number` of a text, which is `none` where it is not finite. Numbers are not negative here.
use stellar_kraal.Common.{str_eq, if◌then◌else◌, ℕ, String, ◌≡◌, refl, Option, none, some}
use stellar_kraal.Http.{
  Outcome, resolved, rejected, Validation, invalid, valid, Reply, reply, refuse, throws,
}
use stellar_kraal.Routes.Loans.{ParsedLoan, Preview, repayment_preview}

-- A value of JavaScript, as `scValToNative` makes them. A plain object and a `Map` hold named values.
mutual
  pub data Native : Type 0 where
    null : Native
    num big : ℕ → Native
    text : String → Native
    array : Items → Native
    object map_of : Fields → Native

  pub data Items : Type 0 where
    no_items : Items
    item : Native → Items → Items

  pub data Fields : Type 0 where
    no_fields : Fields
    field : String → Native → Fields → Fields

unfoldable mutual
  pub normalize : Native → Native
  normalize null = null
  normalize (num n) = num n
  normalize (big n) = big n
  normalize (text t) = text t
  normalize (array xs) = array (normalize_items xs)
  normalize (object fs) = object (normalize_fields fs)
  normalize (map_of fs) = object (normalize_fields fs)

  pub normalize_items : Items → Items
  normalize_items no_items = no_items
  normalize_items (item x xs) = item (normalize x) (normalize_items xs)

  pub normalize_fields : Fields → Fields
  normalize_fields no_fields = no_fields
  normalize_fields (field k v fs) = field k (normalize v) (normalize_fields fs)

-- `fs[k]`; the names are distinct.
abbrev pub at_key : String → Fields → Option Native
at_key k no_fields = none
at_key k (field j v fs) = if str_eq j k then some v else at_key k fs

-- `result.retval`: its field `value`, and what `scValToNative` makes of it.
pub record Retval : Type 0 where
  pub value : Option Native
  pub native : Outcome Native

module _ (number : String → Option ℕ) where
  unfoldable pub to_number : Option Native → Option ℕ
  to_number (some (num n)) = some n
  to_number (some (big n)) = some n
  to_number (some (text t)) = number t
  to_number _ = none

  -- The fields of a decoded loan.
  unfoldable pub loan_of : Fields → Outcome ParsedLoan
  unfolding to_number
  loan_of fs = elim (to_number (at_key "principal" fs)) [
    | none ↦ rejected "Loan record is missing numeric fields"
    | some p ↦ elim (to_number (at_key "outstanding" fs)) [
      | none ↦ rejected "Loan record is missing numeric fields"
      | some o ↦ elim (to_number (at_key "collateral_value" fs)) [
        | none ↦ rejected "Loan record is missing numeric fields"
        | some c ↦ resolved (record { principal = p; outstanding = o; collateral_value = c })
      ]
    ]
  ]

  unfoldable pub loan_of_native : Native → Outcome ParsedLoan
  unfolding loan_of
  loan_of_native (object fs) = loan_of fs
  -- An array is an object without those fields.
  loan_of_native (array xs) = rejected "Loan record is missing numeric fields"
  loan_of_native _ = rejected "Unable to decode loan record"

  unfoldable pub parse_loan_from_simulation : Retval → Outcome ParsedLoan
  unfolding to_number normalize loan_of_native
  parse_loan_from_simulation r = elim (to_number r.value) [
    | some n ↦ resolved (record { principal = n; outstanding = n; collateral_value = n })
    | none ↦ elim r.native [ rejected e ↦ rejected e | resolved v ↦ loan_of_native (normalize v) ]
  ]

  abbrev pub fee_of_native : Native → Option ℕ
  fee_of_native (object fs) = to_number (at_key "interest_fee_bps" fs)
  fee_of_native _ = none

  unfoldable pub parse_fee_config_from_simulation : Retval → Outcome (Option ℕ)
  unfolding to_number normalize
  parse_fee_config_from_simulation r = elim r.native [
    | rejected e ↦ rejected e
    | resolved v ↦ resolved (fee_of_native (normalize v))
  ]

  -- The configured fee, `none` where the second read fails at any point.
  abbrev pub fee_config : Outcome Retval → Option ℕ
  fee_config (rejected e) = none
  fee_config (resolved r) = elim (parse_fee_config_from_simulation r) [
    | rejected e ↦ none
    | resolved bps ↦ bps
  ]

  -- The handler of the route that runs: the account, and the two simulations.
  unfoldable pub preview_route :
      Validation ℕ → Outcome (Unit {0}) → Outcome Retval → Outcome Retval → Reply Preview
  unfolding parse_loan_from_simulation parse_fee_config_from_simulation
  preview_route invalid account loan_result fee_result = refuse 400 "Validation failed"
  preview_route (valid amount) (rejected e) loan_result fee_result = throws e
  preview_route (valid amount) (resolved a) (rejected e) fee_result = throws e
  preview_route (valid amount) (resolved a) (resolved r) fee_result =
      elim (parse_loan_from_simulation r) [
        | rejected e ↦ throws e
        | resolved parsed ↦ reply 200 (repayment_preview amount parsed (fee_config fee_result))
      ]

-- GET /api/loan/:id and GET /api/health/:loanId: the value of one simulation, or the exception.
unfoldable pub read_route : {V : Type 0} → Outcome (Unit {0}) → Outcome V → Reply V
read_route (rejected e) simulated = throws e
read_route (resolved a) (rejected e) = throws e
read_route (resolved a) (resolved v) = reply 200 v

-- `LoanRecord` of contracts/stellarkraal/src/lib.rs; the status is the name of its variant.
pub record OnChainLoan : Type 0 where
  pub id : ℕ
  pub borrower : String
  pub collateral_ids : Items
  pub total_collateral_value : ℕ
  pub principal : ℕ
  pub outstanding : ℕ
  pub interest_accrued : ℕ
  pub last_interest_time : ℕ
  pub status : Native
  pub due_ledger : Native
  pub hf_history : Items

-- A struct of the contract decodes to an object under the names of its fields; 64 and 128 bits are bigints.
abbrev pub native_loan : OnChainLoan → Native
native_loan l = object (
    field "id" (big l.id) (
      field "borrower" (text l.borrower) (
        field "collateral_ids" (array l.collateral_ids) (
          field "total_collateral_value" (big l.total_collateral_value) (
            field "principal" (big l.principal) (
              field "outstanding" (big l.outstanding) (
                field "interest_accrued" (big l.interest_accrued) (
                  field "last_interest_time" (big l.last_interest_time) (
                    field "status" l.status (
                      field "due_ledger" l.due_ledger
                        (field "hf_history" (array l.hf_history) no_fields)))))))))))

-- `FeeConfig` of contracts/stellarkraal/src/lib.rs
abbrev pub native_fee_config : ℕ → ℕ → Native
native_fee_config origination_fee_bps interest_fee_bps = object (
    field "origination_fee_bps" (num origination_fee_bps)
      (field "interest_fee_bps" (num interest_fee_bps) no_fields))

-- The preview of a repayment throws for every loan of the contract, whose record has no field
-- `collateral_value`; the fee configuration of the contract is read.
pub preview_route-native_loan :
    (number : String → Option ℕ) (amount origination_fee_bps interest_fee_bps : ℕ) (l : OnChainLoan)
    (fee_result : Outcome Retval)
    → (preview_route number
          (valid amount)
          (resolved tt)
          (resolved (record { value = none; native = resolved (native_loan l) }))
          fee_result
        ≡ throws "Loan record is missing numeric fields")
      × (fee_config number (
            resolved (record {
              value = none;
              native = resolved (native_fee_config origination_fee_bps interest_fee_bps);
            }))
          ≡ some interest_fee_bps)
unfolding preview_route
preview_route-native_loan number amount origination_fee_bps interest_fee_bps l fee_result =
    (refl, refl)
