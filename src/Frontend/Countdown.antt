-- ===== src/Frontend/Countdown.antt =====
-- frontend/src/hooks/useFetchWithRateLimit.ts: the countdown after an answer 429. `parse` is `parseInt`,
-- with `none` for NaN and a negative number read as 0.
use stellar_kraal.Common.{
  ltb, leb, ◌==◌, str_eq, if◌then◌else◌, Bool-cases, ℕ, zero, suc, ◌-◌, String, ◌≡◌, refl, ap, ◌∙◌,
  inl, inr, Bool, Option, none, some, List, [], ◌∷◌, arith,
}

-- `timer` is the interval that runs, with its own count of the seconds left; the interval that came
-- before it is cleared when it starts. `warnings` holds the seconds that were announced.
pub record RateLimit : Type 0 where
  pub retry_countdown : ℕ
  pub timer : Option ℕ
  pub warnings : List ℕ

abbrev pub idle : RateLimit
idle = record { retry_countdown = 0; timer = none; warnings = [] }

unfoldable pub start_countdown : ℕ → RateLimit → RateLimit
start_countdown seconds s = record {
  retry_countdown = seconds;
  timer = some seconds;
  warnings = seconds ∷ s.warnings;
}

-- One tick of the interval. A count that starts at 0 goes below it, which reads as 0 here and stops
-- the interval as well.
unfoldable pub tick : RateLimit → RateLimit
tick s = elim s.timer [
  | none ↦ s
  | some remaining ↦ record s {
    retry_countdown = remaining - 1;
    timer = if leb (remaining - 1) 0 then none else some (remaining - 1);
  }
]

abbrev pub seconds_of : (String → Option ℕ) → Option String → ℕ
seconds_of parse retry_after = elim retry_after [
  | none ↦ 60
  | some h ↦ if str_eq h "" then 60 else elim (parse h) [ none ↦ 60 | some n ↦ n ]
]

-- `fetchWithLimit`: the status of the answer and its header `Retry-After`.
unfoldable pub fetch_with_limit : (String → Option ℕ) → ℕ → Option String → RateLimit → RateLimit
unfolding start_countdown
fetch_with_limit parse status retry_after s =
    if status == 429 then start_countdown (seconds_of parse retry_after) s else s

abbrev pub is_rate_limited : RateLimit → Bool
is_rate_limited s = ltb 0 s.retry_countdown

abbrev pub ticks : ℕ → RateLimit → RateLimit
ticks zero s = s
ticks (suc n) s = ticks n (tick s)

tick-none :
    (s : RateLimit)
    → s.timer ≡ none
    → ((tick s).timer ≡ none) × ((tick s).retry_countdown ≡ s.retry_countdown)
unfolding tick
tick-none s e = (rw (tick, e) e, rw (tick, e) refl)

ticks-none :
    (k : ℕ) (s : RateLimit) → s.timer ≡ none → (ticks k s).retry_countdown ≡ s.retry_countdown
ticks-none zero s e = refl
ticks-none (suc k) s e = ticks-none k (tick s) (tick-none s e).0 ∙ (tick-none s e).1

tick-timer :
    (s : RateLimit) (n : ℕ)
    → s.timer ≡ some n
    → ((tick s).timer ≡ (if leb (n - 1) 0 then none else some (n - 1)))
      × ((tick s).retry_countdown ≡ n - 1)
unfolding tick
tick-timer s n e = (rw (tick, e) refl, rw (tick, e) refl)

ticks-some :
    (k n : ℕ) (s : RateLimit)
    → s.timer ≡ some n
    → s.retry_countdown ≡ n
    → (ticks k s).retry_countdown ≡ n - k
ticks-some zero n s e f = omega (arith, f)
ticks-some (suc k) n s e f = elim (Bool-cases (leb (n - 1) 0)) [
  | inl z ↦
      let over : (tick s).timer ≡ none = ground (arith, z, (tick-timer s n e).0) in
      ticks-none k (tick s) over ∙ (tick-timer s n e).1 ∙ ground (arith, z)
  | inr z ↦
      let runs : (tick s).timer ≡ some (n - 1) = ground (arith, z, (tick-timer s n e).0) in
      ticks-some k (n - 1) (tick s) runs (tick-timer s n e).1 ∙ omega arith
]

-- After an answer 429 the countdown shows the seconds that are left after each tick, and requests count
-- as limited exactly until the seconds of the answer have passed.
pub ticks-fetch_with_limit :
    (parse : String → Option ℕ) (k : ℕ) (retry_after : Option String) (s : RateLimit)
    → let s' = ticks k (fetch_with_limit parse 429 retry_after s) in
      (s'.retry_countdown ≡ seconds_of parse retry_after - k)
      × (is_rate_limited s' ≡ ltb k (seconds_of parse retry_after))
unfolding fetch_with_limit start_countdown
ticks-fetch_with_limit parse k retry_after s =
    let left =
      ticks-some k (seconds_of parse retry_after) (start_countdown (seconds_of parse retry_after) s)
        refl refl in
    (left, ap (ltb 0) left ∙ ground arith)
