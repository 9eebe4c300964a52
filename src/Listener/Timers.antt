-- ===== src/Listener/Timers.antt =====
-- backend/src/contractEventListener.ts: `startEventListener`, `stopEventListener` and the timer
-- between two polls.
use stellar_kraal.Common.{
  ◌==◌, str_eq, if◌then◌else◌, str_eq_of_ne, Option-cases, length, any_by, ℕ, ◌+◌, ◌-◌, ◌<◌, String,
  ◌≡◌, refl, ◌≢◌, ◌⊎◌, inl, inr, true, Option, none, some, List, [], ◌∷◌, arith,
}

-- `pollTimer`, the timers that will fire, the polls under way, and the next handle of `setTimeout`.
-- A timer that has fired stays in `pollTimer`.
pub record Timers : Type 0 where
  pub poll_timer : Option ℕ
  pub armed : List ℕ
  pub polling : ℕ
  pub next : ℕ

abbrev pub idle : Timers
idle = record { poll_timer = none; armed = []; polling = 0; next = 0 }

-- `clearTimeout(h)`, or the timer fires: it is armed no more.
unfoldable pub disarm : ℕ → List ℕ → List ℕ
disarm h [] = []
disarm h (j ∷ js) = if j == h then disarm h js else j ∷ disarm h js

-- The first `tick()`.
unfoldable pub start_event_listener : String → Timers → Timers
start_event_listener contract_id t =
    if str_eq contract_id "" then t else record t { polling = t.polling + 1 }

unfoldable pub stop_event_listener : Timers → Timers
stop_event_listener t = elim t.poll_timer [
  | none ↦ t
  | some h ↦ record t { poll_timer = none; armed = disarm h t.armed }
]

-- `tick` up to the await of `poll`, when the timer `h` fires.
unfoldable pub tick_begin : ℕ → Timers → Timers
tick_begin h t = record t { armed = disarm h t.armed; polling = t.polling + 1 }

-- `tick` from there on.
unfoldable pub tick_end : Timers → Timers
tick_end t = record {
  poll_timer = some t.next;
  armed = t.next ∷ t.armed;
  polling = t.polling - 1;
  next = t.next + 1;
}

-- The runs of a listener that was started once and not stopped.
pub data Reach : Timers → Type 0 where
  started :
      (contract_id : String) → contract_id ≢ "" → Reach (start_event_listener contract_id idle)
  fires : (t : Timers) (h : ℕ) → Reach t → t.armed ≡ h ∷ [] → Reach (tick_begin h t)
  polled : (t : Timers) → Reach t → 0 < t.polling → Reach (tick_end t)

-- A listener that was started once: either one poll is under way and nothing is armed, or the timer
-- that `pollTimer` names is the one that is armed.
abbrev pub IsSingle : Timers → Type 0
IsSingle t =
    ((t.polling ≡ 1) × (t.armed ≡ []))
    ⊎ ((h : ℕ) × (t.polling ≡ 0) × (t.armed ≡ h ∷ []) × (t.poll_timer ≡ some h))

Reach-IsSingle : (t : Timers) → Reach t → IsSingle t
unfolding start_event_listener tick_begin tick_end disarm
Reach-IsSingle t (started c named) = inl (ground (arith, str_eq_of_ne c "" named))
Reach-IsSingle t (fires t0 h r one) = elim (Reach-IsSingle t0 r) [
  | inl (p, a) ↦ cc
  | inr (k, p, a, q) ↦ inl (ground arith, ground (arith, one))
]
Reach-IsSingle t (polled t0 r busy) = elim (Reach-IsSingle t0 r) [
  | inl (p, a) ↦ inr (t0.next, ground arith, ground (arith, a), refl)
  | inr (k, p, a, q) ↦ absurd (omega arith)
]

-- While a listener that was started once runs, there is one poll under way or one timer armed, so it
-- polls again and again; a stop between two polls leaves nothing, and a stop while a poll is under way
-- leaves that poll, which arms the timer again when it returns.
pub Reach-stop_event_listener :
    (t : Timers)
    → Reach t
    → let t' = stop_event_listener t in
      (length t.armed + t.polling ≡ 1)
      × (length t'.armed + t'.polling ≡ t.polling)
      × (any_by (λ h. h == t'.next) (tick_end t').armed ≡ true)
unfolding stop_event_listener tick_end disarm
Reach-stop_event_listener t r = elim (Reach-IsSingle t r) [
  | inl (p, a) ↦ elim (Option-cases t.poll_timer) [
    | inl e ↦ (ground (arith, a), ground (arith, a, e), ground arith)
    | inr (h, e) ↦ (ground (arith, a), ground (arith, a, e), ground arith)
  ]
  | inr (h, p, a, q) ↦ (ground (arith, a), ground (arith, a, q), ground arith)
]
