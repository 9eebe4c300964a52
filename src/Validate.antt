-- ===== src/Validate.antt =====
-- backend/src/middleware/validate.ts and backend/src/validators: a body's validation by a schema. What
-- `safeParse` comes back with is an argument; the path of an issue is the text of its parts joined with
-- dots, `none` for the empty path. The two copies of the conversion to messages by field are one definition,
-- and a field with the name of a member of Object.prototype is not modelled.
use stellar_kraal.Common.{
  str_eq, if◌then◌else◌, str_eq_iff, Bool-cases, Option-cases, Dict, get, put, get-put,
  get-put_self, ℕ, String, ◌≡◌, refl, ◌∙◌, inl, inr, false, Option, none, some, List, [], ◌∷◌, ◌++◌,
  map, append-nil,
}
use mathlib.Core.List.{append_assoc}

pub record ZodIssue : Type 0 where
  pub path : Option String
  pub message : String

-- `Record<string, string[]>`
abbrev pub Messages : Type 0
Messages = Dict (List String)

abbrev pub field_of : ZodIssue → String
field_of i = elim i.path [ none ↦ "_root" | some p ↦ p ]

-- `if (!acc[field]) acc[field] = []; acc[field].push(message)`
unfoldable pub push_message : String → String → Messages → Messages
push_message field message acc = elim (get field acc) [
  | none ↦ put field (message ∷ []) acc
  | some old ↦ put field (old ++ (message ∷ [])) acc
]

-- The `reduce`, from an accumulator on.
unfoldable pub collect : Messages → List ZodIssue → Messages
unfolding push_message
collect acc [] = acc
collect acc (i ∷ is) = collect (push_message (field_of i) i.message acc) is

unfoldable pub to_validation_messages_by_field : List ZodIssue → Messages
to_validation_messages_by_field issues = collect [] issues

pub data ErrorShape : Type 0 where
  list dictionary : ErrorShape

pub record ValidateOptions : Type 0 where
  pub status_code : Option ℕ
  pub error_shape : Option ErrorShape

-- An entry of `errors`; the empty path is the empty text there.
pub record FieldError : Type 0 where
  pub field : String
  pub message : String

pub data ErrorBody : Type 0 where
  errors : List FieldError → ErrorBody
  details : Messages → ErrorBody

-- The request goes on with the parsed body, or is answered.
pub data Validated (A : Type 0) : Type 0 where
  next : A → Validated A
  answered : ℕ → ErrorBody → Validated A

pub data Parsed (A : Type 0) : Type 0 where
  failure : List ZodIssue → Parsed A
  success : A → Parsed A

abbrev pub field_error : ZodIssue → FieldError
field_error i = record { field = elim i.path [ none ↦ "" | some p ↦ p ]; message = i.message }

abbrev pub status_of : ValidateOptions → ℕ
status_of o = elim o.status_code [ none ↦ 400 | some s ↦ s ]

unfoldable pub validate : {B A : Type 0} → (B → Parsed A) → ValidateOptions → B → Validated A
validate schema options body = elim (schema body) [
  | success a ↦ next a
  | failure issues ↦ elim options.error_shape [
    | some dictionary ↦ answered (status_of options) (details (collect [] issues))
    | some list ↦ answered (status_of options) (errors (map field_error issues))
    | none ↦ answered (status_of options) (errors (map field_error issues))
  ]
]

-- The messages of the issues for a field, in their order.
abbrev pub messages_for : String → List ZodIssue → List String
messages_for f [] = []
messages_for f (i ∷ is) =
    if str_eq (field_of i) f then i.message ∷ messages_for f is else messages_for f is

-- A field without messages has no entry.
abbrev pub entry_of : List String → Option (List String)
entry_of [] = none
entry_of (m ∷ ms) = some (m ∷ ms)

get-push_message_ne :
    (f k m : String) (acc : Messages)
    → str_eq k f ≡ false
    → get f (push_message k m acc) ≡ get f acc
unfolding push_message
get-push_message_ne f k m acc ne = elim (Option-cases (get k acc)) [
  | inl e ↦ rw (push_message, e) (rw (get-put k f (m ∷ []) acc) (rw ne refl))
  | inr (old, e) ↦ rw (push_message, e) (rw (get-put k f (old ++ (m ∷ [])) acc) (rw ne refl))
]

get-push_message_self :
    (k m : String) (acc : Messages) (ms : List String)
    → get k acc ≡ entry_of ms
    → get k (push_message k m acc) ≡ entry_of (ms ++ (m ∷ []))
unfolding push_message
get-push_message_self k m acc [] h = rw (push_message, h) (get-put_self k (m ∷ []) acc)
get-push_message_self k m acc (x ∷ xs) h =
    rw (push_message, h) (get-put_self k ((x ∷ xs) ++ (m ∷ [])) acc)

get-collect :
    (f : String) (issues : List ZodIssue) (acc : Messages) (ms : List String)
    → get f acc ≡ entry_of ms
    → get f (collect acc issues) ≡ entry_of (ms ++ messages_for f issues)
unfolding collect
get-collect f [] acc ms h = rw (append-nil ms) h
get-collect f (i ∷ is) acc ms h = elim (Bool-cases (str_eq (field_of i) f)) [
  | inl e ↦
      let same = (str_eq_iff (field_of i) f).0 e in
      let ih =
        get-collect f is (push_message (field_of i) i.message acc) (ms ++ (i.message ∷ []))
          (rw same (get-push_message_self f i.message acc ms h)) in
      rw e (rw (← append_assoc ms (i.message ∷ []) (messages_for f is)) ih)
  | inr e ↦ rw e (
      get-collect f is (push_message (field_of i) i.message acc) ms
        (get-push_message_ne f (field_of i) i.message acc e ∙ h))
]

-- The details of a refused body have for a field the messages of its issues, all of them and in their
-- order, and no entry for a field without issues. `toValidationMessagesByField` gives the same.
pub validate-dictionary :
    {B A : Type 0} (schema : B → Parsed A) (status : Option ℕ) (body : B) (issues : List ZodIssue)
    → schema body ≡ failure issues
    → (let o : ValidateOptions = record { status_code = status; error_shape = some dictionary } in
        validate schema o body
        ≡ answered (status_of o) (details (to_validation_messages_by_field issues)))
      × ((f : String)
          → get f (to_validation_messages_by_field issues) ≡ entry_of (messages_for f issues))
unfolding validate to_validation_messages_by_field get
validate-dictionary schema status body issues e =
    (rw (validate, e) refl, λ f. get-collect f issues [] [] refl)
