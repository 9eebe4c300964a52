-- ===== src/Server/Window.antt =====
-- backend/src/index.ts: the window of 5xx errors over a run of errors.
use stellar_kraal.Common.{
  ltb, leb, if◌then◌else◌, Bool-cases, length, filter_by, All, All-append, ℕ, ◌+◌, ◌≤◌, String, ◌≡◌,
  refl, sym, ap, ◌∙◌, inl, inr, Bool, List, [], ◌∷◌, ◌++◌, arith, All-filter_by, append-nil,
}
use stellar_kraal.Alerting.{Channels}
use stellar_kraal.Server.{
  pool_exhausted, app_error, other_error, fivexx_threshold, Monitor, evict, track_5xx, Thrown,
  is_pool_exhausted, handle_error, fivexx_window_ms,
}

-- Times that do not go back.
abbrev pub IsAscending : List ℕ → Type 0
IsAscending [] = Unit
IsAscending (t ∷ ts) = All (λ u. t ≤ u) ts × IsAscending ts

abbrev pub in_window : ℕ → ℕ → Bool
in_window now t = leb now (t + fivexx_window_ms)

filter_by-append :
    (p : ℕ → Bool) (xs ys : List ℕ) → filter_by p (xs ++ ys) ≡ filter_by p xs ++ filter_by p ys
filter_by-append p [] ys = refl
filter_by-append p (x ∷ xs) ys = ground (arith, filter_by-append p xs ys, Bool-cases (p x))

-- A later window keeps what it would keep of all that came.
filter_by-filter_by :
    (before now : ℕ) (ts : List ℕ)
    → before ≤ now
    → filter_by (in_window now) (filter_by (in_window before) ts) ≡ filter_by (in_window now) ts
filter_by-filter_by before now [] le = refl
filter_by-filter_by before now (t ∷ ts) le = ground (arith, filter_by-filter_by before now ts le)

filter_by-in_window :
    (now t : ℕ) (ts : List ℕ)
    → now ≤ t + fivexx_window_ms
    → All (λ u. t ≤ u) ts
    → filter_by (in_window now) ts ≡ ts
filter_by-in_window now t [] le h = refl
filter_by-in_window now t (u ∷ ts) le (h, hs) = ground (arith, filter_by-in_window now t ts le hs)

-- The shifting loop stops at the first time inside the window, and takes out all that are older.
evict-filter_by :
    (now : ℕ) (ts : List ℕ) → IsAscending ts → evict now ts ≡ filter_by (in_window now) ts
unfolding evict
evict-filter_by now [] h = refl
evict-filter_by now (t ∷ ts) (h, hs) = elim (Bool-cases (ltb (t + fivexx_window_ms) now)) [
  | inl old ↦ ground (arith, old, evict-filter_by now ts hs)
  | inr young ↦ ground (arith, young, filter_by-in_window now t ts (ground arith) h)
]

filter_by-IsAscending : (p : ℕ → Bool) (ts : List ℕ) → IsAscending ts → IsAscending (filter_by p ts)
filter_by-IsAscending p [] h = tt
filter_by-IsAscending p (t ∷ ts) (h, hs) = elim (Bool-cases (p t)) [
  | inl e ↦ rw e (All-filter_by (λ u. t ≤ u) p ts h, filter_by-IsAscending p ts hs)
  | inr e ↦ rw e (filter_by-IsAscending p ts hs)
]

append-IsAscending :
    (ts : List ℕ) (now : ℕ) → IsAscending ts → All (λ t. t ≤ now) ts → IsAscending (ts ++ now ∷ [])
append-IsAscending [] now h le = (tt, tt)
append-IsAscending (t ∷ ts) now (h, hs) (l, ls) =
    (All-append (λ u. t ≤ u) ts (now ∷ []) h (l, tt), append-IsAscending ts now hs ls)

All-le : (a b : ℕ) (ts : List ℕ) → a ≤ b → All (λ t. t ≤ a) ts → All (λ t. t ≤ b) ts
All-le a b [] le h = tt
All-le a b (t ∷ ts) le (h, hs) = (omega arith, All-le a b ts le hs)

append-append : (xs : List ℕ) (t : ℕ) (ys : List ℕ) → (xs ++ t ∷ []) ++ ys ≡ xs ++ t ∷ ys
append-append [] t ys = refl
append-append (x ∷ xs) t ys = rw (append-append xs t ys)

-- What an error leaves in the window, if the window held what was recent before.
track_5xx-filter_by :
    (show : ℕ → String) (ch : Channels) (before now : ℕ) (past : List ℕ) (m : Monitor)
    → m.fivexx_timestamps ≡ filter_by (in_window before) past
    → IsAscending past
    → All (λ t. t ≤ now) past
    → before ≤ now
    → (track_5xx show ch now m).1.fivexx_timestamps ≡ filter_by (in_window now) (past ++ now ∷ [])
unfolding track_5xx
track_5xx-filter_by show ch before now past m held up le later =
    let kept = filter_by (in_window before) past in
    let ts = evict now (m.fivexx_timestamps ++ now ∷ []) in
    let now_held : ts ≡ filter_by (in_window now) (past ++ now ∷ []) =
      ap (λ ts. evict now (ts ++ now ∷ [])) held
      ∙ evict-filter_by now (kept ++ now ∷ []) (
          append-IsAscending kept now (filter_by-IsAscending (in_window before) past up)
            (All-filter_by (λ t. t ≤ now) (in_window before) past le))
      ∙ filter_by-append (in_window now) kept (now ∷ [])
      ∙ ap (λ ts. ts ++ filter_by (in_window now) (now ∷ []))
          (filter_by-filter_by before now past later)
      ∙ sym (filter_by-append (in_window now) past (now ∷ [])) in
    elim (Bool-cases (leb fivexx_threshold (length ts))) [
      | inl e ↦ rw e now_held
      | inr e ↦ rw e now_held
    ]

-- The errors of a run, each with its time, through the error handler.
abbrev pub handle_errors : (ℕ → String) → Channels → List (ℕ × Thrown) → Monitor → Monitor
handle_errors show ch [] m = m
handle_errors show ch ((now, e) ∷ es) m = handle_errors show ch es (handle_error show ch now e m).1

-- The times of the errors that count: all but those of the exhausted pool.
abbrev pub counted : List (ℕ × Thrown) → List ℕ
counted [] = []
counted ((now, e) ∷ es) = if is_pool_exhausted e then counted es else now ∷ counted es

abbrev pub latest : ℕ → List ℕ → ℕ
latest before [] = before
latest before (t ∷ ts) = latest t ts

module _ (show : ℕ → String) (ch : Channels) where
  -- The window after the errors `es`, if the ones before it have the times `past`.
  IsHeld : List (ℕ × Thrown) → Type 0
  IsHeld es =
      (before : ℕ) (past : List ℕ) (m : Monitor)
      → m.fivexx_timestamps ≡ filter_by (in_window before) past
      → IsAscending past
      → All (λ t. t ≤ before) past
      → IsAscending (before ∷ counted es)
      → (handle_errors show ch es m).fivexx_timestamps
        ≡ filter_by (in_window (latest before (counted es))) (past ++ counted es)

  track_5xx-IsHeld :
      (now : ℕ) (es : List (ℕ × Thrown))
      → IsHeld es
      → (before : ℕ) (past : List ℕ) (m : Monitor)
      → m.fivexx_timestamps ≡ filter_by (in_window before) past
      → IsAscending past
      → All (λ t. t ≤ before) past
      → IsAscending (before ∷ now ∷ counted es)
      → (handle_errors show ch es (track_5xx show ch now m).1).fivexx_timestamps
        ≡ filter_by (in_window (latest now (counted es))) (past ++ now ∷ counted es)
  unfolding IsHeld
  track_5xx-IsHeld now es ih before past m held up le ((later, _), timed) =
      let le' = All-le before now past later le in
      ih now (past ++ now ∷ []) (track_5xx show ch now m).1
        (track_5xx-filter_by show ch before now past m held up le' later)
        (append-IsAscending past now up le')
        (All-append (λ t. t ≤ now) past (now ∷ []) le' (omega arith, tt)) timed
      ∙ ap (filter_by (in_window (latest now (counted es)))) (append-append past now (counted es))

  handle_errors-IsHeld : (es : List (ℕ × Thrown)) → IsHeld es
  unfolding handle_error IsHeld
  handle_errors-IsHeld [] before past m held up le timed =
      held ∙ ap (filter_by (in_window before)) (sym (append-nil past))
  handle_errors-IsHeld ((now, pool_exhausted) ∷ es) before past m held up le timed =
      handle_errors-IsHeld es before past m held up le timed
  handle_errors-IsHeld ((now, app_error _ _ _) ∷ es) before past m held up le timed =
      track_5xx-IsHeld now es (handle_errors-IsHeld es) before past m held up le timed
  handle_errors-IsHeld ((now, other_error _) ∷ es) before past m held up le timed =
      track_5xx-IsHeld now es (handle_errors-IsHeld es) before past m held up le timed

-- After any run of errors whose times do not go back, the list of timestamps holds the times of exactly
-- those errors that came within the last minute before the latest one: every error counts, an
-- `AppError` of a status below 500 too, but not one of the exhausted pool, whose answer is 503.
pub handle_errors_lem :
    (show : ℕ → String) (ch : Channels) (es : List (ℕ × Thrown)) (m : Monitor)
    → m.fivexx_timestamps ≡ []
    → IsAscending (counted es)
    → (handle_errors show ch es m).fivexx_timestamps
      ≡ filter_by (in_window (latest 0 (counted es))) (counted es)
handle_errors_lem show ch es m empty timed =
    unfold IsHeld in handle_errors-IsHeld show ch es 0 [] m empty tt tt (from_0 (counted es), timed)
  where
    from_0 : (ts : List ℕ) → All (λ t. 0 ≤ t) ts
    from_0 [] = tt
    from_0 (t ∷ ts) = (omega arith, from_0 ts)
