-- ===== src/Audit/Laws.antt =====
-- backend/src/middleware/audit.ts: what is left of a body.
use stellar_kraal.Common.{
  ltb, if◌then◌else◌, Bool-cases, ℕ, zero, suc, String, ◌≡◌, refl, inl, inr, true, false,
}
use stellar_kraal.Audit.{
  null, redact_fields, number, boolean, redact, Json, text, object, array, Fields, no_fields, field,
  is_redacted_field, max_depth,
}

module _ (lower : String → String) where
  -- Nothing is readable under the name of a secret down to the sixth level; `d` counts the level.
  mutual
    pub IsClean : Json → ℕ → Type 0
    IsClean (object fs) d = if ltb max_depth d then Unit else AreClean fs d
    IsClean (array fs) d = if ltb max_depth d then Unit else AreClean fs d
    IsClean _ d = Unit

    pub AreClean : Fields → ℕ → Type 0
    AreClean no_fields d = Unit
    AreClean (field k v fs) d =
        (if is_redacted_field (lower k) then v ≡ text "[REDACTED]" else IsClean v (suc d))
        × AreClean fs d

  either_level :
      (j : Json) (fs : Fields) (d : ℕ)
      → (ltb max_depth d ≡ true → IsClean j d)
      → AreClean fs d
      → IsClean (if ltb max_depth d then j else object fs) d
  unfolding IsClean
  either_level j fs d deep shallow = elim (Bool-cases (ltb max_depth d)) [
    | inl e ↦ rw e (deep e)
    | inr e ↦ rw e (rw e shallow)
  ]

  clean_field :
      (k : String) (v : Json) (fs : Fields) (d : ℕ)
      → IsClean v (suc d)
      → AreClean fs d
      → AreClean
          (if is_redacted_field (lower k) then field k (text "[REDACTED]") fs else field k v fs)
          d
  unfolding IsClean
  clean_field k v fs d value rest = elim (Bool-cases (is_redacted_field (lower k))) [
    | inl e ↦ rw e (rw e refl, rest)
    | inr e ↦ rw e (rw e value, rest)
  ]

  deep_object : (fs : Fields) (d : ℕ) → ltb max_depth d ≡ true → IsClean (object fs) d
  unfolding IsClean
  deep_object fs d e = rw e tt

  deep_array : (fs : Fields) (d : ℕ) → ltb max_depth d ≡ true → IsClean (array fs) d
  unfolding IsClean
  deep_array fs d e = rw e tt

module _ (lower mask : String → String) where
  mutual
    unfolding redact IsClean

    redact-IsClean_at : (j : Json) (d : ℕ) → IsClean lower (redact lower mask j d) d
    redact-IsClean_at null d = tt
    redact-IsClean_at (boolean b) d = tt
    redact-IsClean_at (number n) d = tt
    redact-IsClean_at (text t) d = tt
    redact-IsClean_at (object fs) d =
        either_level lower (object fs) _ d (deep_object lower fs d) (redact_fields-AreClean fs d)
    redact-IsClean_at (array fs) d =
        either_level lower (array fs) _ d (deep_array lower fs d) (redact_fields-AreClean fs d)

    redact_fields-AreClean :
        (fs : Fields) (d : ℕ) → AreClean lower (redact_fields lower mask fs d) d
    redact_fields-AreClean no_fields d = tt
    redact_fields-AreClean (field k v fs) d =
        clean_field lower k _ _ d (redact-IsClean_at v (suc d)) (redact_fields-AreClean fs d)

  -- However a body is nested, and whatever its texts are masked to, the redacted body has the text
  -- `[REDACTED]` and nothing else under each name of a secret, in any case of its letters, from the
  -- top to the sixth level of nesting.
  pub redact-IsClean : (j : Json) → IsClean lower (redact lower mask j 0) 0
  redact-IsClean j = redact-IsClean_at j 0

-- A value under `n` objects of one field each.
abbrev pub nested : ℕ → String → Json → Json
nested zero k j = j
nested (suc n) k j = object (field k (nested n k j) no_fields)

-- Below the sixth level nothing is redacted: fields that stand under six fields that are no secrets
-- come out as they are, secrets included.
pub redact-nested :
    (lower mask : String → String) (k : String) (fs : Fields)
    → is_redacted_field (lower k) ≡ false
    → redact lower mask (nested 6 k (object fs)) 0 ≡ nested 6 k (object fs)
unfolding redact
redact-nested lower mask k fs plain = rw (plain, redact)
