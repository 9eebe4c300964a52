-- ===== src/Loans/State.antt =====
-- backend/src/loanStateMachine.ts: the transitions of a loan and their history.
use stellar_kraal.Common.{
  if◌then◌else◌, Bool-cases, any_by, ℕ, ◌≡◌, refl, sym, ◌⊎◌, inl, inr, Bool, true, false, Option,
  none, some, List, [], ◌∷◌, ◌++◌, arith,
}

pub data LoanStatus : Type 0 where
  pending active repaid liquidated at_risk : LoanStatus

pub record TransitionRecord : Type 0 where
  pub from : LoanStatus
  pub to : LoanStatus
  pub at : ℕ

abbrev pub same : LoanStatus → LoanStatus → Bool
same pending pending = true
same active active = true
same repaid repaid = true
same liquidated liquidated = true
same at_risk at_risk = true
same _ _ = false

-- `TRANSITIONS`, which `allowedTransitions` returns
unfoldable pub allowed_transitions : LoanStatus → List LoanStatus
allowed_transitions pending = active ∷ []
allowed_transitions active = repaid ∷ liquidated ∷ at_risk ∷ []
allowed_transitions at_risk = repaid ∷ liquidated ∷ active ∷ []
allowed_transitions repaid = []
allowed_transitions liquidated = []

-- `none` is the InvalidTransitionError; the history is appended to in place.
unfoldable pub transition :
    ℕ → LoanStatus → LoanStatus → List TransitionRecord → Option LoanStatus × List TransitionRecord
unfolding allowed_transitions
transition now current next history =
    if any_by (same next) (allowed_transitions current)
    then (some next, history ++ record { from = current; to = next; at = now } ∷ [])
    else (none, history)

-- A loan's status with its history, driven by requested transitions; a refused one is skipped.
pub drive :
    LoanStatus → List TransitionRecord → List (ℕ × LoanStatus) → LoanStatus × List TransitionRecord
drive st h [] = (st, h)
drive st h ((now, next) ∷ rs) =
    let rest = drive next (transition now st next h).1 rs in
    let same_state = drive st h rs in
    elim (transition now st next h).0 [ none ↦ same_state | some x ↦ rest ]

-- Each entry starts where the one before it ended, and is an allowed transition.
abbrev pub IsChain : LoanStatus → List TransitionRecord → LoanStatus → Type 0
IsChain a [] b = a ≡ b
IsChain a (t ∷ ts) b =
    (t.from ≡ a) × (any_by (same t.to) (allowed_transitions t.from) ≡ true) × IsChain t.to ts b

IsChain-snoc :
    (a b c : LoanStatus) (at : ℕ) (ts : List TransitionRecord)
    → IsChain a ts b
    → any_by (same c) (allowed_transitions b) ≡ true
    → IsChain a (ts ++ record { from = b; to = c; at = at } ∷ []) c
IsChain-snoc a b c at [] h e = (sym h, e, refl)
IsChain-snoc a b c at (t ∷ ts) (f, g, h) e = (f, g, IsChain-snoc t.to b c at ts h e)

transition_allowed :
    (now : ℕ) (b next : LoanStatus) (h : List TransitionRecord)
    → any_by (same next) (allowed_transitions b) ≡ true
    → transition now b next h ≡ (some next, h ++ record { from = b; to = next; at = now } ∷ [])
unfolding transition
transition_allowed now b next h e = rw e

transition_refused :
    (now : ℕ) (b next : LoanStatus) (h : List TransitionRecord)
    → any_by (same next) (allowed_transitions b) ≡ false
    → transition now b next h ≡ (none, h)
unfolding transition
transition_refused now b next h e = rw e

drive_allowed :
    (now : ℕ) (b next : LoanStatus) (h : List TransitionRecord) (rs : List (ℕ × LoanStatus))
    → any_by (same next) (allowed_transitions b) ≡ true
    → drive b h ((now, next) ∷ rs)
      ≡ drive next (h ++ record { from = b; to = next; at = now } ∷ []) rs
unfolding drive
drive_allowed now b next h rs e = ground (arith, transition_allowed now b next h e)

drive_refused :
    (now : ℕ) (b next : LoanStatus) (h : List TransitionRecord) (rs : List (ℕ × LoanStatus))
    → any_by (same next) (allowed_transitions b) ≡ false
    → drive b h ((now, next) ∷ rs) ≡ drive b h rs
unfolding drive
drive_refused now b next h rs e = ground (arith, transition_refused now b next h e)

-- Whatever transitions are requested, the history stays a chain of allowed transitions that leads
-- from the first status to the present one.
pub drive-IsChain :
    (rs : List (ℕ × LoanStatus)) (a b : LoanStatus) (h : List TransitionRecord)
    → IsChain a h b
    → IsChain a (drive b h rs).1 (drive b h rs).0
drive-IsChain [] a b h k = unfold drive in k
drive-IsChain ((now, next) ∷ rs) a b h k =
    elim (Bool-cases (any_by (same next) (allowed_transitions b))) [
      | inl e ↦
          rw (drive_allowed now b next h rs e)
            (drive-IsChain rs a next _ (IsChain-snoc a b next now h k e))
      | inr e ↦ rw (drive_refused now b next h rs e) (drive-IsChain rs a b h k)
    ]

-- A repaid or a liquidated loan never changes its status or its history again.
pub final_forever :
    (rs : List (ℕ × LoanStatus)) (st : LoanStatus) (h : List TransitionRecord)
    → (st ≡ repaid) ⊎ (st ≡ liquidated)
    → drive st h rs ≡ (st, h)
unfolding drive transition
final_forever [] st h k = refl
final_forever ((now, next) ∷ rs) repaid h k = final_forever rs repaid h k
final_forever ((now, next) ∷ rs) liquidated h k = final_forever rs liquidated h k
final_forever ((now, next) ∷ rs) st h k = ground arith
