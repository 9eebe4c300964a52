-- ===== src/Frontend/ButtonState.antt =====
-- frontend/src/hooks/useButtonState.ts: the state of a button, and the timers that put it back. The
-- function that would stop a timer is returned, and no caller keeps it.
use stellar_kraal.Common.{
  ◌==◌, if◌then◌else◌, Bool-cases, filter_by, any_by, ℕ, ◌+◌, ◌≡◌, refl, ap, ◌∙◌, inl, inr, Bool,
  false, not, List, [], ◌∷◌, arith,
}

pub data ButtonState : Type 0 where
  idle loading success failed : ButtonState

-- `timers` are the times at which the timers fire.
pub record Button : Type 0 where
  pub state : ButtonState
  pub timers : List ℕ

unfoldable pub set_loading : Button → Button
set_loading b = record b { state = loading }

unfoldable pub set_success : ℕ → ℕ → Button → Button
set_success success_duration now b = record {
  state = success;
  timers = (now + success_duration) ∷ b.timers;
}

unfoldable pub set_error : ℕ → ℕ → Button → Button
set_error error_duration now b = record {
  state = failed;
  timers = (now + error_duration) ∷ b.timers;
}

unfoldable pub reset : Button → Button
reset b = record b { state = idle }

abbrev pub is_pending : ℕ → Button → Bool
is_pending t b = any_by (λ x. x == t) b.timers

-- The timers of a time fire, if there are any.
unfoldable pub fire_timer : ℕ → Button → Button
fire_timer t b =
    if is_pending t b
    then record { state = idle; timers = filter_by (λ x. not (x == t)) b.timers }
    else b

abbrev pub fire_timers : List ℕ → Button → Button
fire_timers [] b = b
fire_timers (t ∷ ts) b = fire_timers ts (fire_timer t b)

fire_timers-idle : (ts : List ℕ) (b : Button) → b.state ≡ idle → (fire_timers ts b).state ≡ idle
unfolding fire_timer
fire_timers-idle [] b h = h
fire_timers-idle (t ∷ ts) b h =
    fire_timers-idle ts (fire_timer t b) (ground (arith, h, Bool-cases (is_pending t b)))

fire_timer-set_loading :
    (t : ℕ) (b : Button) → is_pending t b ≡ false → fire_timer t (set_loading b) ≡ set_loading b
unfolding fire_timer set_loading
fire_timer-set_loading t b e = rw e refl

-- A button that waits for a request goes on waiting exactly as long as no timer of an earlier success or
-- failure fires: the first one that does makes it ready again while the request is still under way.
pub fire_timers-set_loading :
    (ts : List ℕ) (b : Button)
    → (fire_timers ts (set_loading b)).state
      ≡ (if any_by (λ t. is_pending t b) ts then idle else loading)
unfolding set_loading fire_timer
fire_timers-set_loading [] b = refl
fire_timers-set_loading (t ∷ ts) b = elim (Bool-cases (is_pending t b)) [
  | inl e ↦ rw e (fire_timers-idle ts (fire_timer t (set_loading b)) (rw (fire_timer, e) refl))
  | inr e ↦
      ap (λ x. (fire_timers ts x).state) (fire_timer-set_loading t b e)
      ∙ fire_timers-set_loading ts b
      ∙ rw e refl
]
