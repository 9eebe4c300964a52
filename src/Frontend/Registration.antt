-- ===== src/Frontend/Registration.antt =====
-- frontend/src/components/CollateralRegistrationForm.tsx: the checks of the form, its draft in localStorage
-- and the registration. `trim`, `parseInt`, `parseFloat` and the length of a text are arguments, and so is
-- what the calls of the server, the wallet and submitSignedXdr come back with.
pub mod Laws
use stellar_kraal.Common.{
  ◌<>◌, ltb, str_eq, if◌then◌else◌, is_some, length, any_by, ℕ, zero, suc, ◌*◌, ◌/◌, ◌<◌, String,
  ap, Bool, true, false, not, ◌&&◌, ◌||◌, Option, none, some, List, [], ◌∷◌,
}
use stellar_kraal.Http.{Outcome, resolved, rejected}
use stellar_kraal.Frontend.Forms.{Num, whole, next_test}

-- `File | null`, with the type and the size of the file; `restored` is the object without fields that JSON
-- makes of a file.
pub data Image : Type 0 where
  no_image restored : Image
  file : String → ℕ → Image

abbrev pub stored_image : Image → Image
stored_image no_image = no_image
stored_image restored = restored
stored_image (file type size) = restored

pub record FormData : Type 0 where
  pub animal_type : String
  pub quantity : String
  pub weight : String
  pub health_status : String
  pub location : String
  pub appraised_value : String
  pub breed : String
  pub age : String
  pub image : Image

abbrev pub empty_form : FormData
empty_form = record {
  animal_type = "cattle";
  quantity = "";
  weight = "";
  health_status = "good";
  location = "";
  appraised_value = "";
  breed = "";
  age = "";
  image = no_image;
}

-- `FormErrors`: `none` where the object has no message.
pub record FormErrors : Type 0 where
  pub breed_error : Option String
  pub age_error : Option String
  pub image_error : Option String
  pub quantity_error : Option String
  pub weight_error : Option String
  pub location_error : Option String
  pub value_error : Option String

abbrev pub no_errors : FormErrors
no_errors = record {
  breed_error = none;
  age_error = none;
  image_error = none;
  quantity_error = none;
  weight_error = none;
  location_error = none;
  value_error = none;
}

abbrev pub valid_types : List String
valid_types = "image/jpeg" ∷ "image/png" ∷ "image/webp" ∷ "image/gif" ∷ []

abbrev pub is_negative_or_nan : Num → Bool
is_negative_or_nan Num.nan = true
is_negative_or_nan Num.negative = true
is_negative_or_nan _ = false

-- `isNaN(x) || x <= 0`
abbrev pub is_nan_or_not_positive : Num → Bool
is_nan_or_not_positive Num.nan = true
is_nan_or_not_positive Num.negative = true
is_nan_or_not_positive (Num.whole n) = ltb n 1
is_nan_or_not_positive _ = false

pub record Texts : Type 0 where
  pub trim : String → String
  pub length_of : String → ℕ
  pub parse_int : String → Num
  pub parse_float : String → Num

-- The cases of `validateField`; the other two fields have none.
module _ (t : Texts) where
  unfoldable pub validate_breed : String → Option String
  validate_breed v =
      if str_eq (t.trim v) ""
      then some "Breed is required"
      else if ltb (t.length_of (t.trim v)) 2
      then some "Breed must be at least 2 characters"
      else none

  unfoldable pub validate_age : String → Option String
  validate_age v =
      if str_eq (t.trim v) ""
      then some "Age is required"
      else if is_negative_or_nan (t.parse_int v)
      then some "Age must be a valid number"
      else none

  unfoldable pub validate_image : Image → Option String
  validate_image no_image = some "Image is required"
  validate_image restored = none
  validate_image (file type size) =
      if not (any_by (λ x. str_eq x type) valid_types)
      then some "Only image files are allowed (JPEG, PNG, WebP, GIF)"
      else if ltb (5 * 1024 * 1024) size
      then some "Image must be smaller than 5MB"
      else none

  unfoldable pub validate_quantity : String → Option String
  validate_quantity v =
      if str_eq v ""
      then some "Quantity is required"
      else if is_nan_or_not_positive (t.parse_int v)
      then some "Quantity must be a positive number"
      else none

  unfoldable pub validate_weight : String → Option String
  validate_weight v =
      if str_eq v ""
      then some "Estimated weight is required"
      else if is_nan_or_not_positive (t.parse_float v)
      then some "Weight must be a positive number"
      else none

  unfoldable pub validate_location : String → Option String
  validate_location v =
      if str_eq (t.trim v) ""
      then some "Location is required"
      else if ltb (t.length_of (t.trim v)) 3
      then some "Location must be at least 3 characters"
      else none

  unfoldable pub validate_value : String → Option String
  validate_value v =
      if str_eq v ""
      then some "Appraised value is required"
      else if is_nan_or_not_positive (t.parse_int v)
      then some "Appraised value must be a positive number"
      else none

  -- The errors that `validateForm` sets.
  unfoldable pub form_errors : FormData → FormErrors
  form_errors f = record {
    breed_error = validate_breed f.breed;
    age_error = validate_age f.age;
    image_error = validate_image f.image;
    quantity_error = validate_quantity f.quantity;
    weight_error = validate_weight f.weight;
    location_error = validate_location f.location;
    value_error = validate_value f.appraised_value;
  }

-- `Object.keys(newErrors).length === 0`
abbrev pub has_none : FormErrors → Bool
has_none e =
    not (is_some e.breed_error)
    && (not (is_some e.age_error)
        && (not (is_some e.image_error)
            && (not (is_some e.quantity_error)
                && (not (is_some e.weight_error)
                    && (not (is_some e.location_error) && not (is_some e.value_error))))))

-- The page; `draft` is the entry of localStorage, with its wallet.
pub record Page : Type 0 where
  pub form : FormData
  pub errors : FormErrors
  pub loading : Bool
  pub show_confirm : Bool
  pub show_restore_prompt : Bool
  pub draft : Option (String × FormData)
  pub toasts : List String
  pub status : Option String

-- The effect on mount, for a draft that can be read.
unfoldable pub check_draft : String → Page → Page
check_draft wallet p = elim p.draft [
  | none ↦ p
  | some (owner, f) ↦ if str_eq owner wallet then record p { show_restore_prompt = true } else p
]

-- A round of the interval.
unfoldable pub save_draft : String → Page → Page
save_draft wallet p =
    if not (str_eq p.form.quantity "")
      || not (str_eq p.form.weight "")
      || not (str_eq p.form.location "")
      || not (str_eq p.form.appraised_value "")
    then record p { draft = some (wallet, record p.form { image = stored_image p.form.image }) }
    else p

unfoldable pub restore_saved_data : Page → Page
restore_saved_data p = elim p.draft [
  | none ↦ p
  | some (owner, f) ↦ record p { form = f; show_restore_prompt = false }
]

unfoldable pub dismiss_restore : Page → Page
dismiss_restore p = record p { show_restore_prompt = false; draft = none }

unfoldable pub handle_submit : Texts → Page → Page
unfolding form_errors
handle_submit t p =
    let errs = form_errors t p.form in
    if has_none errs
    then record p { errors = errs; show_confirm = true }
    else record p { errors = errs }

-- The body of POST /api/v1/collateral/register.
pub record RegisterBody : Type 0 where
  pub owner : String
  pub animal_type : String
  pub count : Num
  pub appraised_value : Num

abbrev pub register_body : Texts → String → FormData → RegisterBody
register_body t wallet f = record {
  owner = wallet;
  animal_type = f.animal_type;
  count = t.parse_int f.quantity;
  appraised_value = t.parse_int f.appraised_value;
}

-- The server's answer, read: the transaction, or the error of the body if it has one.
pub data Answer : Type 0 where
  transaction : String → Answer
  refusal : Option String → Answer

-- From the request to the result, or the message that was thrown.
unfoldable pub registered :
    Outcome Answer → (String → Outcome String) → (String → Outcome String) → Outcome String
registered (rejected e) sign submit = rejected e
registered (resolved (refusal none)) sign submit = rejected "Registration failed"
registered (resolved (refusal (some e))) sign submit = rejected e
registered (resolved (transaction xdr)) sign submit = elim (sign xdr) [
  | rejected e ↦ rejected e
  | resolved signed ↦ submit signed
]

unfoldable pub register_begin : Page → Page
register_begin p = record p { loading = true }

unfoldable pub register_finish : Outcome String → Page → Page
register_finish (resolved result) p = record p {
  form = empty_form;
  errors = no_errors;
  loading = false;
  draft = none;
  toasts = ("Collateral registered successfully! ID: " <> result) ∷ p.toasts;
}
register_finish (rejected e) p = record p {
  loading = false;
  toasts = (if str_eq e "" then "Registration failed" else e) ∷ p.toasts;
  status = some ("error:" <> e);
}
