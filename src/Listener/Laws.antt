-- ===== src/Listener/Laws.antt =====
-- backend/src/contractEventListener.ts: what an event does to the tables, as a relation.
use stellar_kraal.Common.{
  str_eq, str_eq_iff, Bool-cases, Option-cases, get, ℕ, String, ◌≡◌, refl, sym, ap, ◌∙◌, subst, inl,
  inr, some, List, [], ◌∷◌, arith,
}
use stellar_kraal.Store.Records.{Store, liquidation, completed, LoanStatus}
use stellar_kraal.Store.Collateral.{insert_collateral, CollateralInput}
use stellar_kraal.Store.Loans.{update_loan, insert_loan, LoanUpdates, LoanInput, no_loan_updates}
use stellar_kraal.Store.Transactions.{update_transaction, TransactionUpdates}
use stellar_kraal.Store.Calls.{
  Call, insert_collateral_call, insert_loan_call, update_loan_call, update_transaction_call,
  run_call, run_calls, IsKeyed,
}
use stellar_kraal.Store.Keyed.{run_calls-IsKeyed}
use stellar_kraal.Listener.{
  repaid_input, liquidated_input, Sdk, Attempt, threw, returned, goes_on, ◌>>=◌, Event,
  no_transaction_updates, event_key, event_vals, registered_input, requested_input, Handled, settle,
  apply_registered, apply_requested, apply_repaid, apply_liquidated, dispatch, handle_event,
}

pub settle_lem {ℓ κ} :
    {A : Type ℓ} (P : Store → Type κ) (m : Attempt A) (f : A → Store → Handled × Store) (s : Store)
    → P s
    → ((a : A) → m ≡ goes_on a → P (f a s).1)
    → P (settle m f s).1
settle_lem P threw f s p q = p
settle_lem P returned f s p q = p
settle_lem P (goes_on a) f s p q = q a refl

-- The same for a second step that goes on.
settle_bind {ℓ κ} :
    {B A : Type ℓ} (P : Store → Type κ) (m : Attempt B) (g : B → Attempt A)
    (f : A → Store → Handled × Store) (s : Store)
    → P s
    → ((b : B) (a : A) → g b ≡ goes_on a → P (f a s).1)
    → P (settle (m >>= g) f s).1
settle_bind P threw g f s p q = p
settle_bind P returned g f s p q = p
settle_bind P (goes_on b) g f s p q = settle_lem P (g b) f s p (q b)

-- The ways in which an event changes the tables.
pub data Applied {V : Type 0} (sdk : Sdk V) (now : ℕ) (s : Store) : Store → Type 0 where
  untouched : Applied sdk now s s
  registered :
      (e : Event) (topic : V)
      → event_key sdk e ≡ goes_on (topic, "collateral_registered")
      → (vals : List V) (c : CollateralInput) → registered_input sdk topic vals ≡ goes_on c
      → Applied sdk now s (apply_registered now c s).1
  requested :
      (vals : List V) (d : LoanInput)
      → requested_input sdk vals ≡ goes_on d
      → Applied sdk now s (apply_requested now d s).1
  repaid : (p : String × ℕ) → Applied sdk now s (apply_repaid now p s).1
  liquidated : (p : String × ℕ × ℕ) → Applied sdk now s (apply_liquidated now p s).1

module _ {V : Type 0} (sdk : Sdk V) (now : ℕ) where
  pub handle_event-Applied :
      (e : Event) (s : Store) → Applied sdk now s (handle_event sdk now e s).1
  unfolding handle_event dispatch
  handle_event-Applied e s =
      let vals = event_vals sdk e.value in
      let P = Applied sdk now s in
      settle_lem P (event_key sdk e) (λ (topic, key) s. dispatch sdk now topic key e.value s) s
        untouched
        λ (topic, key) found. elim (Bool-cases (str_eq key "collateral_registered")) [
          | inl k ↦ rw k (
              settle_bind P vals (registered_input sdk topic) (apply_registered now) s untouched (
                registered e topic (found ∙ ap (λ x. goes_on (topic, x)) ((str_eq_iff key _).0 k))))
          | inr k ↦ elim (Bool-cases (str_eq key "loan/requested")) [
            | inl k1 ↦
                rw (k, k1)
                  (settle_bind P vals (requested_input sdk) (apply_requested now) s untouched
                    requested)
            | inr k1 ↦ elim (Bool-cases (str_eq key "loan_repaid")) [
              | inl k2 ↦
                  rw (k, k1, k2)
                    (settle_bind P vals (repaid_input sdk) (apply_repaid now) s untouched
                      λ _ p _. repaid p)
              | inr k2 ↦ elim (Bool-cases (str_eq key "loan/liquidated")) [
                | inl k3 ↦
                    rw (k, k1, k2, k3)
                      (settle_bind P vals (liquidated_input sdk) (apply_liquidated now) s untouched
                        λ _ p _. liquidated p)
                | inr k3 ↦ rw (k, k1, k2, k3) untouched
              ]
            ]
          ]
        ]

  -- The calls of the store that an applied event comes to.
  Applied-run_calls :
      (s : Store) (s' : Store) → Applied sdk now s s' → (cs : List Call) × (s' ≡ run_calls cs s)
  unfolding run_calls run_call apply_registered apply_requested apply_repaid apply_liquidated
  Applied-run_calls s s' untouched = ([], refl)
  Applied-run_calls s s' (registered _ _ _ _ c _) = (insert_collateral_call now c ∷ [], refl)
  Applied-run_calls s s' (requested _ d _) = (insert_loan_call now d ∷ [], refl)
  Applied-run_calls s s' (repaid (id, n)) = (
    update_transaction_call now id
          (record no_transaction_updates { status = some completed; amount = some n })
        ∷ [],
    refl,
  )
  Applied-run_calls s s' (liquidated (id, n, m)) = (
    update_loan_call id (record no_loan_updates { status = some LoanStatus.liquidated })
        ∷ update_transaction_call now id
            (record no_transaction_updates { status = some completed; type = some liquidation })
        ∷ [],
    refl,
  )

  -- Whatever an event holds, its handling is a sequence of the store's own calls, and so keeps every
  -- row filed under its own id.
  pub handle_event-IsKeyed :
      (e : Event) (s : Store)
      → IsKeyed s
      → ((cs : List Call) × ((handle_event sdk now e s).1 ≡ run_calls cs s))
        × IsKeyed (handle_event sdk now e s).1
  handle_event-IsKeyed e s h =
      let (cs, same) = Applied-run_calls s _ (handle_event-Applied e s) in
      ((cs, same), subst IsKeyed (sym same) (run_calls-IsKeyed cs s h))

update_transaction-liquidation_events :
    (now : ℕ) (id : String) (u : TransactionUpdates) (s : Store)
    → (update_transaction now id u s).1.liquidation_events ≡ s.liquidation_events
unfolding update_transaction
update_transaction-liquidation_events now id u s =
    ground (arith, Option-cases (get id s.transactions))

update_loan-liquidation_events :
    (id : String) (u : LoanUpdates) (s : Store)
    → (update_loan id u s).1.liquidation_events ≡ s.liquidation_events
unfolding update_loan
update_loan-liquidation_events id u s = ground (arith, Option-cases (get id s.loans))

Applied-liquidation_events :
    {V : Type 0} (sdk : Sdk V) (now : ℕ) (s s' : Store)
    → Applied sdk now s s'
    → s'.liquidation_events ≡ s.liquidation_events
unfolding apply_registered apply_requested apply_repaid apply_liquidated insert_collateral
    insert_loan
Applied-liquidation_events sdk now s s' untouched = refl
Applied-liquidation_events sdk now s s' (registered _ _ _ _ c _) = refl
Applied-liquidation_events sdk now s s' (requested _ d _) = refl
Applied-liquidation_events sdk now s s' (repaid (id, n)) =
    update_transaction-liquidation_events now id _ s
Applied-liquidation_events sdk now s s' (liquidated (id, n, m)) =
    update_transaction-liquidation_events now id _ _ ∙ update_loan-liquidation_events id _ s

-- No event, and so no list of events of the contract, adds a liquidation event.
pub handle_event-liquidation_events :
    {V : Type 0} (sdk : Sdk V) (now : ℕ) (e : Event) (s : Store)
    → (handle_event sdk now e s).1.liquidation_events ≡ s.liquidation_events
handle_event-liquidation_events sdk now e s =
    Applied-liquidation_events sdk now s _ (handle_event-Applied sdk now e s)
