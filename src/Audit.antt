-- ===== src/Audit.antt =====
-- backend/src/middleware/audit.ts: what the audit log keeps of a request body. The lower-casing of a
-- field name (`toLowerCase`) and the masking of a text (`maskString`, two regular expressions) are
-- functions that the definitions take.
pub mod Laws
use stellar_kraal.Common.{
  ltb, str_eq, if◌then◌else◌, any_by, ℕ, zero, suc, max, String, ap, Bool, List, [], ◌∷◌,
}

-- A parsed body. An array stands with its entries as `Object.entries` gives them, under its indices.
mutual
  pub data Json : Type 0 where
    null : Json
    boolean : Bool → Json
    number : ℕ → Json
    text : String → Json
    object array : Fields → Json

  pub data Fields : Type 0 where
    no_fields : Fields
    field : String → Json → Fields → Fields

-- `REDACTED_FIELDS`
abbrev pub redacted_fields : List String
redacted_fields =
    "password" ∷ "secret" ∷ "private_key" ∷ "privatekey" ∷ "seed" ∷ "mnemonic" ∷ "token"
    ∷ "authorization" ∷ "api_key" ∷ "apikey" ∷ "secret_key" ∷ "secretkey" ∷ "signing_key"
    ∷ "signingkey" ∷ []

-- `REDACTED_FIELDS.has`
unfoldable pub is_redacted_field : String → Bool
is_redacted_field k = any_by (λ x. str_eq x k) redacted_fields

abbrev pub max_depth : ℕ
max_depth = 5

module _ (lower mask : String → String) where
  -- An array becomes an object with its indices for keys.
  unfoldable mutual
    pub redact : Json → ℕ → Json
    redact null depth = null
    redact (boolean b) depth = boolean b
    redact (number n) depth = number n
    redact (text t) depth = text (mask t)
    redact (object fs) depth =
        let fields = redact_fields fs depth in
        if ltb max_depth depth then object fs else object fields
    redact (array fs) depth =
        let fields = redact_fields fs depth in
        if ltb max_depth depth then array fs else object fields

    pub redact_fields : Fields → ℕ → Fields
    redact_fields no_fields depth = no_fields
    redact_fields (field k v fs) depth =
        let value = redact v (suc depth) in
        let rest = redact_fields fs depth in
        if is_redacted_field (lower k) then field k (text "[REDACTED]") rest else field k value rest
