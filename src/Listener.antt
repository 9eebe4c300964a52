-- ===== src/Listener.antt =====
-- backend/src/contractEventListener.ts: an event of the contract, from its base64 texts to the
-- tables. The accessors of the Stellar SDK are a record of functions, the clock is an argument.
pub mod Laws
pub mod Owners
pub mod Cursor
pub mod Timers
use stellar_kraal.Common.{
  ◌<>◌, str_eq, if◌then◌else◌, put, ℕ, zero, suc, ◌+◌, ◌/◌, ◌<◌, String, sym, ap, Bool, true, false,
  not, Option, none, some, List, [], ◌∷◌,
}
use stellar_kraal.Store.Records.{LoanStatus, liquidation, completed, Store}
use stellar_kraal.Store.Paging.{given}
use stellar_kraal.Store.Collateral.{CollateralInput, insert_collateral}
use stellar_kraal.Store.Loans.{LoanInput, no_loan_updates, insert_loan, update_loan}
use stellar_kraal.Store.Transactions.{TransactionUpdates, update_transaction}
use stellar_kraal.Store.Records

-- The accessors of `xdr.ScVal` and `Address`; `none` is an exception. `vec` may also give `null`.
pub record Sdk (V : Type 0) : Type 0 where
  pub from_xdr : String → Option V
  pub symbol : V → Option String
  pub vec : V → Option (Option (List V))
  pub u64 : V → Option String
  pub u32 : V → Option ℕ
  pub i128_lo : V → Option ℕ
  pub address : V → Option String

-- A stretch of the handler: an exception, an early `return`, or a value to go on with.
pub data Attempt {ℓ} (A : Type ℓ) : Type ℓ where
  threw : Attempt A
  returned : Attempt A
  goes_on : A → Attempt A

infixl 5 ◌>>=◌ ◌>>◌
abbrev pub ◌>>=◌ {ℓ κ} : {A : Type ℓ} {B : Type κ} → Attempt A → (A → Attempt B) → Attempt B
threw >>= f = threw
returned >>= f = returned
goes_on a >>= f = f a

abbrev pub ◌>>◌ {ℓ} : {B : Type ℓ} → Attempt (Unit {0}) → Attempt B → Attempt B
m >> k = m >>= λ _. k

abbrev pub call {ℓ} : {A : Type ℓ} → Option A → Attempt A
call none = threw
call (some a) = goes_on a

abbrev pub return_if : Bool → Attempt (Unit {0})
return_if true = returned
return_if false = goes_on tt

-- `RawEventResponse`, with `topic ?? []`.
pub record Event : Type 0 where
  pub type : String
  pub topic : List String
  pub value : String
  pub ledger : ℕ

abbrev pub no_transaction_updates : TransactionUpdates
no_transaction_updates = record {
  borrower = none;
  type = none;
  status = none;
  amount = none;
  loan_id = none;
  collateral_id = none;
}

module _ {V : Type 0} (sdk : Sdk V) where
  -- `rawTopics.map((t) => xdr.ScVal.fromXDR(t, "base64"))`
  unfoldable pub decode_topics : List String → Attempt (List V)
  decode_topics [] = goes_on []
  decode_topics (t ∷ ts) = do v ← call (sdk.from_xdr t); vs ← decode_topics ts; goes_on (v ∷ vs)

  -- The second topic, and the key of the event.
  unfoldable pub topics_key : List V → Attempt (V × String)
  topics_key (t0 ∷ t1 ∷ ts) = do
    ns ← call (sdk.symbol t0)
    return_if (str_eq ns "")
    action ← call (sdk.symbol t1)
    goes_on (t1, if str_eq action "" then ns else ns <> "/" <> action)
  topics_key _ = returned

  unfoldable pub event_key : Event → Attempt (V × String)
  unfolding decode_topics topics_key
  event_key e = do
    return_if (not (str_eq e.type "contract"))
    topics ← decode_topics e.topic
    topics_key topics

  -- `xdr.ScVal.fromXDR(event.value, "base64").vec?.() ?? []`
  unfoldable pub event_vals : String → Attempt (List V)
  event_vals value = do
    v ← call (sdk.from_xdr value)
    vals ← call (sdk.vec v)
    goes_on (given vals [])

  -- An address that does not decode is the empty text.
  abbrev pub address_or_empty : V → String
  address_or_empty v = given (sdk.address v) ""

  unfoldable pub registered_input : V → List V → Attempt CollateralInput
  registered_input topic (v0 ∷ v1 ∷ v2 ∷ v3 ∷ vs) = do
    id ← call (sdk.u64 v0)
    animal_type ← call (sdk.symbol v1)
    count ← call (sdk.u32 v2)
    appraised_value ← call (sdk.i128_lo v3)
    goes_on (record {
      id = id;
      owner = address_or_empty topic;
      animal_type = animal_type;
      breed = none;
      age_years = none;
      weight_kg = none;
      photo_url = none;
      count = count;
      appraised_value = appraised_value;
      species = none;
      age = none;
      weight = none;
      image_url = none;
      status = none;
    })
  registered_input topic _ = returned

  unfoldable pub requested_input : List V → Attempt LoanInput
  requested_input (v0 ∷ v1 ∷ v2 ∷ vs) = do
    id ← call (sdk.u64 v0)
    amount ← call (sdk.i128_lo v2)
    goes_on (record {
      id = id;
      borrower = address_or_empty v1;
      collateral_id = "";
      amount = amount;
      status = none;
      health_factor = none;
    })
  requested_input _ = returned

  -- The loan and `repayAmount`.
  unfoldable pub repaid_input : List V → Attempt (String × ℕ)
  repaid_input (v0 ∷ v1 ∷ v2 ∷ v3 ∷ vs) = do
    id ← call (sdk.u64 v0)
    principal_paid ← call (sdk.i128_lo v1)
    interest_paid ← call (sdk.i128_lo v2)
    goes_on (id, principal_paid + interest_paid)
  repaid_input _ = returned

  -- The loan, `repayAmount` and `collateralSeized`.
  unfoldable pub liquidated_input : List V → Attempt (String × ℕ × ℕ)
  liquidated_input (v0 ∷ v1 ∷ v2 ∷ vs) = do
    id ← call (sdk.u64 v0)
    repay_amount ← call (sdk.i128_lo v1)
    collateral_seized ← call (sdk.i128_lo v2)
    goes_on (id, repay_amount, collateral_seized)
  liquidated_input _ = returned

-- How the handling ended: without a change, with the `…_synced` log, or in the `catch`.
pub data Handled : Type 0 where
  ignored synced parse_error : Handled

-- The `try`: what was decoded is applied to the tables.
abbrev pub settle {ℓ} :
    {A : Type ℓ} → Attempt A → (A → Store → Handled × Store) → Store → Handled × Store
settle threw f s = (parse_error, s)
settle returned f s = (ignored, s)
settle (goes_on a) f s = f a s

unfoldable pub apply_registered : ℕ → CollateralInput → Store → Handled × Store
apply_registered now c s = (synced, (insert_collateral now c s).1)

unfoldable pub apply_requested : ℕ → LoanInput → Store → Handled × Store
apply_requested now d s = (synced, (insert_loan now d s).1)

unfoldable pub apply_repaid : ℕ → String × ℕ → Store → Handled × Store
apply_repaid now (id, repay_amount) s = (
  synced,
  (update_transaction now id
      (record no_transaction_updates { status = some completed; amount = some repay_amount }) s).1,
)

-- The name `liquidator` is not defined there, so `insertLiquidationEvent` is not reached: the
-- ReferenceError is caught.
unfoldable pub apply_liquidated : ℕ → String × ℕ × ℕ → Store → Handled × Store
apply_liquidated now (id, repay_amount, collateral_seized) s =
    let s1 =
      (update_loan id (record no_loan_updates { status = some LoanStatus.liquidated }) s).1 in
    (
      parse_error,
      (update_transaction now id
          (record no_transaction_updates { status = some completed; type = some liquidation })
          s1).1,
    )

module _ {V : Type 0} (sdk : Sdk V) where
  -- The branches on the key.
  unfoldable pub dispatch : ℕ → V → String → String → Store → Handled × Store
  unfolding event_vals
  dispatch now topic key value s =
      if str_eq key "collateral_registered"
      then settle (event_vals sdk value >>= registered_input sdk topic) (apply_registered now) s
      else if str_eq key "loan/requested"
      then settle (event_vals sdk value >>= requested_input sdk) (apply_requested now) s
      else if str_eq key "loan_repaid"
      then settle (event_vals sdk value >>= repaid_input sdk) (apply_repaid now) s
      else if str_eq key "loan/liquidated"
      then settle (event_vals sdk value >>= liquidated_input sdk) (apply_liquidated now) s
      else (ignored, s)

  unfoldable pub handle_event : ℕ → Event → Store → Handled × Store
  unfolding event_key
  handle_event now e s =
      settle (event_key sdk e) (λ (topic, key) s. dispatch now topic key e.value s) s
