-- ===== src/Frontend/Wizard/Laws.antt =====
-- frontend/src/context/LoanWizardContext.tsx and StepAmount.tsx: the steps of the wizard, its stored
-- state, and the amounts that the second step lets through.
use stellar_kraal.Common.{
  ltb, str_eq, if◌then◌else◌, Bool-cases, Option-cases, is_some, ℕ, ◌*◌, ◌≤◌, String, ◌≡◌, refl,
  ◌∙◌, ◌⊎◌, inl, inr, true, false, Option, none, some, List, [], ◌∷◌, arith,
}
use stellar_kraal.Frontend.Wizard.{
  WizardState, Stored, Provider, first_render, load, save, mount, Field, set_field, Action,
  is_positive, can_proceed, next_step, max_loan, validate_amount, handle_next, act, run, unreadable,
  readable, field_error, sets, nexts, prevs, resets, amount_nexts,
}

abbrev pub IsStep : WizardState → Type 0
IsStep s = (1 ≤ s.step) × (s.step ≤ 4)

abbrev pub IsStored : Option Stored → Type 0
IsStored (some (readable s)) = IsStep s
IsStored _ = Unit

-- What holds after the first effects: the step is one of the four, and the state is stored.
abbrev pub IsKept : Provider → Type 0
IsKept p = IsStep p.state × (p.mounted ≡ true) × (p.storage ≡ some (readable p.state))

mount-IsKept : (storage : Option Stored) → IsStored storage → IsKept (mount (first_render storage))
unfolding load save
mount-IsKept none h = ((omega arith, omega arith), refl, refl)
mount-IsKept (some unreadable) h = ((omega arith, omega arith), refl, refl)
mount-IsKept (some (readable s)) h = (h, refl, refl)

module _ (parse : String → Option ℕ) (seventy : ℕ → ℕ) where
  set_field-IsStep : (f : Field) (s : WizardState) → IsStep s → IsStep (set_field f s)
  unfolding set_field
  set_field-IsStep f s h = ground (arith, h)

  next_step-IsStep : (s : WizardState) → IsStep s → IsStep (next_step parse s)
  unfolding next_step
  next_step-IsStep s h = ground (arith, h, Bool-cases (can_proceed parse s))

  handle_next-IsStep :
      (show : Option ℕ → String) (s : WizardState)
      → IsStep s
      → IsStep (handle_next parse seventy show s)
  unfolding handle_next
  handle_next-IsStep show s h = elim (Option-cases (validate_amount parse seventy show s)) [
    | inl e ↦ rw (handle_next, e) (next_step-IsStep _ (set_field-IsStep (field_error none) s h))
    | inr (m, e) ↦ rw (handle_next, e) (set_field-IsStep (field_error (some m)) s h)
  ]

  act-IsKept :
      (show : Option ℕ → String) (a : Action) (p : Provider)
      → IsKept p
      → IsKept (act parse seventy show a p)
  unfolding act save
  act-IsKept show (sets f) p (h, m, k) = rw m (set_field-IsStep f p.state h, refl, refl)
  act-IsKept show nexts p (h, m, k) = rw m (next_step-IsStep p.state h, refl, refl)
  act-IsKept show prevs p (h, m, k) = rw m ((omega arith, omega arith), refl, refl)
  act-IsKept show amount_nexts p (h, m, k) = rw m (handle_next-IsStep show p.state h, refl, refl)
  act-IsKept show resets p (h, m, k) = rw m ((omega arith, omega arith), refl, refl)

  run-IsKept :
      (show : Option ℕ → String) (as' : List Action) (p : Provider)
      → IsKept p
      → IsKept (run parse seventy show as' p)
  run-IsKept show [] p h = h
  run-IsKept show (a ∷ as') p h =
      run-IsKept show as' (act parse seventy show a p) (act-IsKept show a p h)

  -- The wizard stays on one of its four steps, whatever its pages do from a stored state that is on one,
  -- and a reload comes back to the state it left.
  pub run-mount :
      (show : Option ℕ → String) (as' : List Action) (storage : Option Stored)
      → IsStored storage
      → let p = run parse seventy show as' (mount (first_render storage)) in
        (1 ≤ p.state.step) × (p.state.step ≤ 4) × ((mount (first_render p.storage)).state ≡ p.state)
  unfolding load save
  run-mount show as' storage h =
      let kept = run-IsKept show as' (mount (first_render storage)) (mount-IsKept storage h) in
      (kept.0.0, kept.0.1, rw kept.2 refl)

  validate_amount-within :
      (show : Option ℕ → String) (s : WizardState) (value n : ℕ)
      → str_eq s.appraised_value "" ≡ false
      → parse s.appraised_value ≡ some value
      → parse s.loan_amount ≡ some n
      → validate_amount parse seventy show s ≡ none
      → (str_eq s.loan_amount "" ≡ false) × (1 ≤ n) × (n ≤ seventy value)
  unfolding validate_amount max_loan
  validate_amount-within show s value n given e f ok = elim (Bool-cases (str_eq s.loan_amount "")) [
    | inl x ↦ ground (arith, ok, x)
    | inr x ↦ elim (Bool-cases (ltb n 1)) [
      | inl y ↦ ground (arith, ok, x, y, f)
      | inr y ↦ ground (arith, ok, x, y, f, e, given, Bool-cases (ltb (seventy value) n))
    ]
  ]

  can_proceed-second :
      (s : WizardState)
      → s.step ≡ 2
      → can_proceed parse (set_field (field_error none) s) ≡ is_positive parse s.loan_amount
  unfolding can_proceed set_field
  can_proceed-second s two = rw two refl

  next_step-second :
      (s : WizardState)
      → s.step ≡ 2
      → (next_step parse (set_field (field_error none) s)).step
        ≡ (if is_positive parse s.loan_amount then 3 else 2)
  unfolding next_step set_field
  next_step-second s two =
      rw (next_step, can_proceed-second s two)
        (ground (arith, two, Bool-cases (is_positive parse s.loan_amount)))

  -- The button of the second page goes on only with an amount that is a number of at least 1 and at most
  -- 70% of the appraised value, where that is a number, and otherwise stays and says why.
  pub handle_next-max_loan :
      (show : Option ℕ → String) (s : WizardState) (value : ℕ)
      → ((v : ℕ) → seventy v * 10 ≤ v * 7)
      → s.step ≡ 2
      → str_eq s.appraised_value "" ≡ false
      → parse s.appraised_value ≡ some value
      → let s' = handle_next parse seventy show s in
        ((s'.step ≡ 3)
          × ((n : ℕ) × (parse s.loan_amount ≡ some n) × (1 ≤ n) × (n * 10 ≤ value * 7)))
        ⊎ ((s'.step ≡ 2) × ((is_some s'.error ≡ true) ⊎ (parse s.loan_amount ≡ none)))
  unfolding handle_next set_field
  handle_next-max_loan show s value below two given e =
      elim (Option-cases (validate_amount parse seventy show s)) [
        | inr (m, v) ↦ inr (ground (arith, v, two), inl (rw (handle_next, v) refl))
        | inl v ↦ elim (Option-cases (parse s.loan_amount)) [
          | inl f ↦ inr (rw (handle_next, v) (next_step-second s two ∙ ground (arith, f)), inr f)
          | inr (n, f) ↦
              let within = validate_amount-within show s value n given e f v in
              inl (
                rw (handle_next, v) (next_step-second s two ∙ ground (arith, f, within)),
                (n, f, within.1, omega (arith, within, below value)),
              )
        ]
      ]
