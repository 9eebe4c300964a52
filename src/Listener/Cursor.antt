-- ===== src/Listener/Cursor.antt =====
-- backend/src/contractEventListener.ts: one poll, before and after the await of `getEvents`.
use stellar_kraal.Common.{
  ltb, ◌==◌, str_eq, if◌then◌else◌, str_eq_of_ne, any_by, All, ℕ, ◌+◌, ◌≤◌, ◌<◌, String, ◌≡◌, refl,
  ◌≢◌, ◌⊎◌, inl, true, Option, none, some, List, [], ◌∷◌, arith,
}
use stellar_kraal.Http.{Outcome, resolved, rejected}
use stellar_kraal.Store.Records.{Store}
use stellar_kraal.Store.Calls.{IsKeyed}
use stellar_kraal.Listener.{Sdk, Event, handle_event}
use stellar_kraal.Listener.Laws.{handle_event-IsKeyed}

-- The tables, and `lastLedger`.
pub record Listener : Type 0 where
  pub store : Store
  pub last_ledger : ℕ

-- The argument of `getEvents`: where to start, and the contract.
pub data EventsRequest : Type 0 where
  start_ledger cursor : ℕ → String → EventsRequest

unfoldable pub poll_request : String → Listener → Option EventsRequest
poll_request contract_id l =
    if str_eq contract_id ""
    then none
    else if ltb 0 l.last_ledger
    then some (start_ledger (l.last_ledger + 1) contract_id)
    else some (cursor 0 contract_id)

module _ {V : Type 0} (sdk : Sdk V) (now : ℕ) where
  -- The loop over `response.events`.
  unfoldable pub handle_events : List Event → Listener → Listener
  handle_events [] l = l
  handle_events (e ∷ es) l = handle_events es (record {
    store = (handle_event sdk now e l.store).1;
    last_ledger = if ltb l.last_ledger e.ledger then e.ledger else l.last_ledger;
  })

  -- After the await; a failure is logged.
  unfoldable pub poll_finish : Outcome (List Event) → Listener → Listener
  poll_finish (resolved events) l = handle_events events l
  poll_finish (rejected why) l = l

  handle_events_mono :
      (es : List Event) (l : Listener) → l.last_ledger ≤ (handle_events es l).last_ledger
  unfolding handle_events
  handle_events_mono [] l = omega arith
  handle_events_mono (e ∷ es) l =
      let l' : Listener = record {
        store = (handle_event sdk now e l.store).1;
        last_ledger = if ltb l.last_ledger e.ledger then e.ledger else l.last_ledger;
      } in
      ground (arith, handle_events_mono es l')

  -- The events are all behind the cursor, and the cursor is where it was or at one of them.
  handle_events_bounds :
      (es : List Event) (l : Listener)
      → let l' = handle_events es l in
        All (λ e. e.ledger ≤ l'.last_ledger) es
        × ((l'.last_ledger ≡ l.last_ledger) ⊎ (any_by (λ e. e.ledger == l'.last_ledger) es ≡ true))
  unfolding handle_events
  handle_events_bounds [] l = (tt, inl refl)
  handle_events_bounds (e ∷ es) l =
      let l' : Listener = record {
        store = (handle_event sdk now e l.store).1;
        last_ledger = if ltb l.last_ledger e.ledger then e.ledger else l.last_ledger;
      } in
      let (below, at) = handle_events_bounds es l' in
      ((ground (arith, handle_events_mono es l'), below), ground (arith, at))

  -- What is behind a cursor past 0 is behind the next request.
  past_cursor :
      (contract_id : String) (es : List Event) (l' : Listener)
      → contract_id ≢ ""
      → All (λ e. 0 < e.ledger) es
      → All (λ e. e.ledger ≤ l'.last_ledger) es
      → All
          (λ e.
            (e.ledger ≤ l'.last_ledger)
            × (poll_request contract_id l' ≡ some (start_ledger (l'.last_ledger + 1) contract_id)))
          es
  unfolding poll_request
  past_cursor c [] l' named p b = tt
  past_cursor c (e ∷ es) l' named (p, ps) (b, bs) =
      ((b, ground (arith, str_eq_of_ne c "" named)), past_cursor c es l' named ps bs)

  -- A poll whose events all have a positive ledger sends the next request to a ledger behind every one
  -- of them: the cursor moves to the latest ledger of the events, if that is later, and never back. A
  -- poll that fails changes nothing.
  pub poll_finish-poll_request :
      (contract_id : String) (events : List Event) (why : String) (l : Listener)
      → contract_id ≢ ""
      → All (λ e. 0 < e.ledger) events
      → let l' = poll_finish (resolved events) l in
        All
          (λ e.
            (e.ledger ≤ l'.last_ledger)
            × (poll_request contract_id l' ≡ some (start_ledger (l'.last_ledger + 1) contract_id)))
          events
        × ((l'.last_ledger ≡ l.last_ledger)
            ⊎ (any_by (λ e. e.ledger == l'.last_ledger) events ≡ true))
        × (l.last_ledger ≤ l'.last_ledger)
        × (poll_finish (rejected why) l ≡ l)
  unfolding poll_finish
  poll_finish-poll_request contract_id events why l named positive =
      let (below, at) = handle_events_bounds events l in
      (
        past_cursor contract_id events (handle_events events l) named positive below,
        at,
        handle_events_mono events l,
        refl,
      )

  handle_events-IsKeyed :
      (es : List Event) (l : Listener) → IsKeyed l.store → IsKeyed (handle_events es l).store
  unfolding handle_events
  handle_events-IsKeyed [] l h = h
  handle_events-IsKeyed (e ∷ es) l h =
      handle_events-IsKeyed es _ (handle_event-IsKeyed sdk now e l.store h).1

  -- A poll, whether it succeeds or fails and whatever its events hold, keeps every row of the tables
  -- filed under its own id.
  pub poll_finish-IsKeyed :
      (events : Outcome (List Event)) (l : Listener)
      → IsKeyed l.store
      → IsKeyed (poll_finish events l).store
  unfolding poll_finish
  poll_finish-IsKeyed (resolved es) l h = handle_events-IsKeyed es l h
  poll_finish-IsKeyed (rejected why) l h = h
