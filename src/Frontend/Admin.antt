-- ===== src/Frontend/Admin.antt =====
-- frontend/src/lib/adminSlice.ts: the reducer of the admin panel, and the fetches that dispatch to it.
use stellar_kraal.Common.{
  ◌<>◌, if◌then◌else◌, is_some, ℕ, String, ◌≡◌, refl, Bool, true, false, not, ◌&&◌, Option, none,
  some, List, [], ◌∷◌,
}
use stellar_kraal.Webhooks.{is_ok}
use stellar_kraal.Http.{Outcome, resolved, rejected}

pub record SliceState (T : Type 0) : Type 0 where
  pub data_of : Option T
  pub loading : Bool
  pub error : Option String

abbrev pub initial_slice : {T : Type 0} → SliceState T
initial_slice = record { data_of = none; loading = false; error = none }

-- `AdminState`, over the types of the three payloads.
pub record AdminState (U M S : Type 0) : Type 0 where
  pub users : SliceState U
  pub moderation_queue : SliceState M
  pub statistics : SliceState S

abbrev pub initial_admin_state : {U M S : Type 0} → AdminState U M S
initial_admin_state = record {
  users = initial_slice;
  moderation_queue = initial_slice;
  statistics = initial_slice;
}

pub data AdminAction (U M S : Type 0) : Type 0 where
  users_pending moderation_queue_pending statistics_pending : AdminAction U M S
  users_fulfilled : U → AdminAction U M S
  moderation_queue_fulfilled : M → AdminAction U M S
  statistics_fulfilled : S → AdminAction U M S
  users_rejected moderation_queue_rejected statistics_rejected : String → AdminAction U M S

abbrev pub pending : {T : Type 0} → SliceState T
pending = record { data_of = none; loading = true; error = none }

abbrev pub fulfilled : {T : Type 0} → T → SliceState T
fulfilled x = record { data_of = some x; loading = false; error = none }

abbrev pub failed : {T : Type 0} → String → SliceState T
failed e = record { data_of = none; loading = false; error = some e }

-- The answer to a fetch: its status, and what `res.json()` comes back with, as the payload.
pub record Response (T : Type 0) : Type 0 where
  pub status : ℕ
  pub json : Outcome T

-- From the `fetch` to the payload: an answer outside 200 to 299 throws, before its body is read.
unfoldable pub json_of : {T : Type 0} → (ℕ → String) → Outcome (Response T) → Outcome T
json_of show (rejected e) = rejected e
json_of show (resolved r) = if is_ok r.status then r.json else rejected ("HTTP " <> show r.status)

module _ {U M S : Type 0} where
  unfoldable pub admin_reducer : AdminState U M S → AdminAction U M S → AdminState U M S
  admin_reducer s users_pending = record s { users = pending }
  admin_reducer s (users_fulfilled x) = record s { users = fulfilled x }
  admin_reducer s (users_rejected e) = record s { users = failed e }
  admin_reducer s moderation_queue_pending = record s { moderation_queue = pending }
  admin_reducer s (moderation_queue_fulfilled x) = record s { moderation_queue = fulfilled x }
  admin_reducer s (moderation_queue_rejected e) = record s { moderation_queue = failed e }
  admin_reducer s statistics_pending = record s { statistics = pending }
  admin_reducer s (statistics_fulfilled x) = record s { statistics = fulfilled x }
  admin_reducer s (statistics_rejected e) = record s { statistics = failed e }

  -- What each fetch dispatches before its await, and after it.
  unfoldable pub fetch_users : (ℕ → String) → Outcome (Response U) → List (AdminAction U M S)
  unfolding json_of
  fetch_users show fetched =
      users_pending
      ∷ elim (json_of show fetched) [
        | resolved x ↦ users_fulfilled x
        | rejected e ↦ users_rejected e
      ]
      ∷ []

  unfoldable pub fetch_moderation_queue :
      (ℕ → String) → Outcome (Response M) → List (AdminAction U M S)
  unfolding json_of
  fetch_moderation_queue show fetched =
      moderation_queue_pending
      ∷ elim (json_of show fetched) [
        | resolved x ↦ moderation_queue_fulfilled x
        | rejected e ↦ moderation_queue_rejected e
      ]
      ∷ []

  unfoldable pub fetch_statistics : (ℕ → String) → Outcome (Response S) → List (AdminAction U M S)
  unfolding json_of
  fetch_statistics show fetched =
      statistics_pending
      ∷ elim (json_of show fetched) [
        | resolved x ↦ statistics_fulfilled x
        | rejected e ↦ statistics_rejected e
      ]
      ∷ []

  abbrev pub dispatch_all : List (AdminAction U M S) → AdminState U M S → AdminState U M S
  dispatch_all [] s = s
  dispatch_all (a ∷ rest) s = dispatch_all rest (admin_reducer s a)

-- Nothing yet, loading, data, or an error, and no two of them.
abbrev pub is_single : {T : Type 0} → SliceState T → Bool
is_single s =
    not (s.loading && is_some s.data_of)
    && not (s.loading && is_some s.error)
    && not (is_some s.data_of && is_some s.error)

abbrev pub IsConsistent : {U M S : Type 0} → AdminState U M S → Type 0
IsConsistent s =
    (is_single s.users ≡ true)
    × (is_single s.moderation_queue ≡ true)
    × (is_single s.statistics ≡ true)

module _ {U M S : Type 0} where
  admin_reducer-IsConsistent :
      (s : AdminState U M S) (a : AdminAction U M S)
      → IsConsistent s
      → IsConsistent (admin_reducer s a)
  unfolding admin_reducer
  admin_reducer-IsConsistent s users_pending (u, m, t) = (refl, m, t)
  admin_reducer-IsConsistent s (users_fulfilled x) (u, m, t) = (refl, m, t)
  admin_reducer-IsConsistent s (users_rejected e) (u, m, t) = (refl, m, t)
  admin_reducer-IsConsistent s moderation_queue_pending (u, m, t) = (u, refl, t)
  admin_reducer-IsConsistent s (moderation_queue_fulfilled x) (u, m, t) = (u, refl, t)
  admin_reducer-IsConsistent s (moderation_queue_rejected e) (u, m, t) = (u, refl, t)
  admin_reducer-IsConsistent s statistics_pending (u, m, t) = (u, m, refl)
  admin_reducer-IsConsistent s (statistics_fulfilled x) (u, m, t) = (u, m, refl)
  admin_reducer-IsConsistent s (statistics_rejected e) (u, m, t) = (u, m, refl)

  -- In whatever order the actions of any fetches arrive, each of the three slices holds at no time more
  -- than one of a running load, data and an error.
  pub dispatch_all-IsConsistent :
      (as_dispatched : List (AdminAction U M S)) (s : AdminState U M S)
      → IsConsistent s
      → IsConsistent (dispatch_all as_dispatched s)
  dispatch_all-IsConsistent [] s h = h
  dispatch_all-IsConsistent (a ∷ rest) s h =
      dispatch_all-IsConsistent rest (admin_reducer s a) (admin_reducer-IsConsistent s a h)
