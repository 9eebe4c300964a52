-- ===== src/Listener/Owners.antt =====
-- backend/src/contractEventListener.ts: whose the registered collateral is.
use stellar_kraal.Common.{
  str_eq, Bool-cases, Option-cases, get, get-put, ℕ, String, ◌≡◌, refl, ap, ◌∙◌, ◌⊎◌, inl, inr, not,
  Option, none, some, List, [], ◌∷◌, arith,
}
use stellar_kraal.Store.Records.{CollateralRecord, Store}
use stellar_kraal.Store.Collateral.{CollateralInput, insert_collateral, new_collateral}
use stellar_kraal.Store.Loans.{update_loan, insert_loan, LoanUpdates}
use stellar_kraal.Store.Transactions.{update_transaction, TransactionUpdates}
use stellar_kraal.Listener.{
  Sdk, Attempt, threw, returned, goes_on, ◌>>=◌, call, return_if, Event, decode_topics, topics_key,
  event_key, registered_input, apply_registered, apply_requested, apply_repaid, apply_liquidated,
  handle_event,
}
use stellar_kraal.Listener.Laws.{
  Applied, untouched, registered, requested, repaid, liquidated, handle_event-Applied,
}

-- Inversion of a bind that goes on.
>>=-eq-goes_on {ℓ κ} :
    {A : Type ℓ} {B : Type κ} (m : Attempt A) (f : A → Attempt B) {b : B}
    → (m >>= f) ≡ goes_on b
    → (a : A) × (m ≡ goes_on a) × (f a ≡ goes_on b)
>>=-eq-goes_on (goes_on a) f h = (a, refl, h)
>>=-eq-goes_on threw f h = cc
>>=-eq-goes_on returned f h = cc

call-eq-goes_on {ℓ} : {A : Type ℓ} (o : Option A) {a : A} → call o ≡ goes_on a → o ≡ some a
call-eq-goes_on (some a) h = cc
call-eq-goes_on none h = cc

module _ {V : Type 0} (sdk : Sdk V) where
  -- Two arms of one union: no value is a symbol and an address.
  abbrev pub HasExclusiveArms : Type 0
  HasExclusiveArms = (v : V) (t : String) → sdk.symbol v ≡ some t → sdk.address v ≡ none

  -- The second topic of an event that is read is a symbol.
  topics_key_symbol :
      (ts : List V) (topic : V) (key : String)
      → topics_key sdk ts ≡ goes_on (topic, key)
      → (t : String) × (sdk.symbol topic ≡ some t)
  unfolding topics_key
  topics_key_symbol [] topic key h = cc
  topics_key_symbol (t0 ∷ []) topic key h = cc
  topics_key_symbol (t0 ∷ t1 ∷ ts) topic key h =
      let (ns, _, h1) = >>=-eq-goes_on (call (sdk.symbol t0)) _ h in
      let (_, _, h2) = >>=-eq-goes_on (return_if (str_eq ns "")) _ h1 in
      let (action, got, h3) = >>=-eq-goes_on (call (sdk.symbol t1)) _ h2 in
      (action, ground (arith, call-eq-goes_on (sdk.symbol t1) got, h3))

  event_key_symbol :
      (e : Event) (topic : V) (key : String)
      → event_key sdk e ≡ goes_on (topic, key)
      → (t : String) × (sdk.symbol topic ≡ some t)
  unfolding event_key
  event_key_symbol e topic key h =
      let (_, _, h1) = >>=-eq-goes_on (return_if (not (str_eq e.type "contract"))) _ h in
      let (ts, _, h2) = >>=-eq-goes_on (decode_topics sdk e.topic) _ h1 in
      topics_key_symbol ts topic key h2

  registered_input_owner :
      (topic : V) (vals : List V) (c : CollateralInput)
      → sdk.address topic ≡ none
      → registered_input sdk topic vals ≡ goes_on c
      → c.owner ≡ ""
  unfolding registered_input
  registered_input_owner topic (v0 ∷ v1 ∷ v2 ∷ v3 ∷ vs) c e h =
      let (_, _, h1) = >>=-eq-goes_on (call (sdk.u64 v0)) _ h in
      let (_, _, h2) = >>=-eq-goes_on (call (sdk.symbol v1)) _ h1 in
      let (_, _, h3) = >>=-eq-goes_on (call (sdk.u32 v2)) _ h2 in
      let (_, _, h4) = >>=-eq-goes_on (call (sdk.i128_lo v3)) _ h3 in ground (arith, h4, e)
  registered_input_owner topic [] c e h = cc
  registered_input_owner topic (v0 ∷ []) c e h = cc
  registered_input_owner topic (v0 ∷ v1 ∷ []) c e h = cc
  registered_input_owner topic (v0 ∷ v1 ∷ v2 ∷ []) c e h = cc

  -- A record that is there already, or one without an owner.
  abbrev pub IsUnowned : String → Store → Store → Type 0
  IsUnowned id s s' =
      (get id s'.collateral ≡ get id s.collateral)
      ⊎ ((row : CollateralRecord) × (get id s'.collateral ≡ some row) × (row.owner ≡ ""))

  update_transaction-collateral :
      (now : ℕ) (id : String) (u : TransactionUpdates) (s : Store)
      → (update_transaction now id u s).1.collateral ≡ s.collateral
  unfolding update_transaction
  update_transaction-collateral now id u s = ground (arith, Option-cases (get id s.transactions))

  update_loan-collateral :
      (id : String) (u : LoanUpdates) (s : Store) → (update_loan id u s).1.collateral ≡ s.collateral
  unfolding update_loan
  update_loan-collateral id u s = ground (arith, Option-cases (get id s.loans))

  Applied-IsUnowned :
      HasExclusiveArms
      → (now : ℕ) (id : String) (s s' : Store) → Applied sdk now s s'
      → IsUnowned id s s'
  unfolding apply_registered apply_requested apply_repaid apply_liquidated insert_collateral
      insert_loan
  Applied-IsUnowned arms now id s s' untouched = inl refl
  Applied-IsUnowned arms now id s s' (registered e topic found vals c h) =
      let (t, symbol) = event_key_symbol e topic _ found in
      let no_owner = registered_input_owner topic vals c (arms topic t symbol) h in
      elim (Bool-cases (str_eq c.id id)) [
        | inl same ↦ inr (
          new_collateral now c,
          ground (arith, get-put c.id id (new_collateral now c) s.collateral),
          no_owner,
        )
        | inr other ↦ inl (ground (arith, get-put c.id id (new_collateral now c) s.collateral))
      ]
  Applied-IsUnowned arms now id s s' (requested _ d _) = inl refl
  Applied-IsUnowned arms now id s s' (repaid (k, n)) =
      inl (ap (get id) (update_transaction-collateral now k _ s))
  Applied-IsUnowned arms now id s s' (liquidated (k, n, m)) =
      inl (ap (get id) (update_transaction-collateral now k _ _ ∙ update_loan-collateral k _ s))

  -- As no value of the contract is both a symbol and an address, an event changes a collateral record
  -- only by registering one that has the empty text for its owner.
  pub handle_event-IsUnowned :
      HasExclusiveArms
      → (now : ℕ) (id : String) (e : Event) (s : Store)
      → IsUnowned id s (handle_event sdk now e s).1
  handle_event-IsUnowned arms now id e s =
      Applied-IsUnowned arms now id s _ (handle_event-Applied sdk now e s)
