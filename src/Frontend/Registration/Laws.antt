-- ===== src/Frontend/Registration/Laws.antt =====
-- frontend/src/components/CollateralRegistrationForm.tsx: what a confirmed form holds, what comes back of
-- a draft, and what is left after a registration.
use stellar_kraal.Common.{
  ◌<>◌, str_eq, Bool-cases, Option-cases, ℕ, ◌≤◌, String, ◌≡◌, refl, ap, ◌⊎◌, inl, inr, Bool, true,
  false, none, some, arith,
}
use stellar_kraal.Frontend.Registration.{
  empty_form, FormErrors, no_errors, is_nan_or_not_positive, Texts, validate_image,
  validate_quantity, validate_value, form_errors, has_none, Page, save_draft, restore_saved_data,
  handle_submit, register_body, register_begin, register_finish, restored, file,
}
use stellar_kraal.Http.{Outcome, resolved, rejected}
use stellar_kraal.Frontend.Forms.{Num, whole, next_test}

-- What `parseInt` may give: NaN, a negative number, a whole one, or an infinity for a text of more than 309
-- digits, but no fraction.
abbrev pub is_fraction : Num → Bool
is_fraction (Num.fraction n) = true
is_fraction _ = false

-- A whole number of at least 1, or the infinity, which JSON writes as null.
abbrev pub IsPositive : Num → Type 0
IsPositive x = ((n : ℕ) × (x ≡ whole n) × (1 ≤ n)) ⊎ (x ≡ Num.infinite)

is_nan_or_not_positive-IsPositive :
    (x : Num) → is_fraction x ≡ false → is_nan_or_not_positive x ≡ false → IsPositive x
is_nan_or_not_positive-IsPositive Num.nan i h = cc
is_nan_or_not_positive-IsPositive Num.infinite i h = inr refl
is_nan_or_not_positive-IsPositive Num.negative i h = cc
is_nan_or_not_positive-IsPositive (Num.whole n) i h = inl (n, refl, ground (arith, h))
is_nan_or_not_positive-IsPositive (Num.fraction n) i h = cc

has_none-no_errors : (e : FormErrors) → has_none e ≡ true → e ≡ no_errors
has_none-no_errors e h = ground (
  arith,
  h,
  Option-cases e.breed_error,
  Option-cases e.age_error,
  Option-cases e.image_error,
  Option-cases e.quantity_error,
  Option-cases e.weight_error,
  Option-cases e.location_error,
  Option-cases e.value_error,
)

module _ (t : Texts) where
  validate_quantity-none :
      (v : String)
      → is_fraction (t.parse_int v) ≡ false
      → validate_quantity t v ≡ none
      → IsPositive (t.parse_int v)
  unfolding validate_quantity
  validate_quantity-none v i ok =
      let first = next_test (str_eq v "") _ _ ok in
      let second = next_test (is_nan_or_not_positive (t.parse_int v)) _ _ first.1 in
      is_nan_or_not_positive-IsPositive (t.parse_int v) i second.0

  validate_value-none :
      (v : String)
      → is_fraction (t.parse_int v) ≡ false
      → validate_value t v ≡ none
      → IsPositive (t.parse_int v)
  unfolding validate_value
  validate_value-none v i ok =
      let first = next_test (str_eq v "") _ _ ok in
      let second = next_test (is_nan_or_not_positive (t.parse_int v)) _ _ first.1 in
      is_nan_or_not_positive-IsPositive (t.parse_int v) i second.0

  -- The confirmation is asked for only if the form has no errors, and then the request that follows has a
  -- count and a value that are whole numbers of at least 1, or the infinity that `parseInt` makes of a
  -- text with more than 309 digits; `parseInt` gives no fraction.
  pub handle_submit-register_body :
      (wallet : String) (p : Page)
      → ((v : String) → is_fraction (t.parse_int v) ≡ false)
      → p.show_confirm ≡ false
      → (handle_submit t p).show_confirm ≡ true
      → let body = register_body t wallet p.form in
        (form_errors t p.form ≡ no_errors) × IsPositive body.count × IsPositive body.appraised_value
  unfolding handle_submit form_errors
  handle_submit-register_body wallet p integers closed asked =
      elim (Bool-cases (has_none (form_errors t p.form))) [
        | inl e ↦
            let none_of = has_none-no_errors (form_errors t p.form) e in
            (
              none_of,
              validate_quantity-none p.form.quantity (integers p.form.quantity)
                  (ap (λ x. x.quantity_error) none_of),
              validate_value-none p.form.appraised_value (integers p.form.appraised_value)
                  (ap (λ x. x.value_error) none_of),
            )
        | inr e ↦ ground (arith, e, closed, asked)
      ]

  -- A draft that was saved is restored as it was, but for a chosen file: that comes back as an object
  -- that is no file, and passes the check of the image.
  pub restore_saved_data-save_draft :
      (wallet type : String) (size : ℕ) (p : Page)
      → str_eq p.form.quantity "" ≡ false
      → p.form.image ≡ file type size
      → let f = (restore_saved_data (save_draft wallet p)).form in
        (f ≡ record p.form { image = restored }) × (validate_image t f.image ≡ none)
  unfolding restore_saved_data save_draft validate_image
  restore_saved_data-save_draft wallet type size p begun chosen =
      (rw (begun, chosen) refl, rw (begun, chosen) refl)

  abbrev pub IsAfter : Outcome String → Page → Page → Type 0
  IsAfter (resolved result) p q = (q.form ≡ empty_form) × (q.draft ≡ none)
  IsAfter (rejected e) p q =
      (q.form ≡ p.form) × (q.draft ≡ p.draft) × (q.status ≡ some ("error:" <> e))

  -- A registration that fails anywhere keeps the form and its draft and says so; one that comes through
  -- empties both. Either way the page stops waiting.
  pub register_finish_lem :
      (outcome : Outcome String) (p : Page)
      → let q = register_finish outcome (register_begin p) in
        (q.loading ≡ false) × IsAfter outcome p q
  unfolding register_finish register_begin
  register_finish_lem (resolved result) p = (refl, (refl, refl))
  register_finish_lem (rejected e) p = (refl, (refl, refl, refl))
