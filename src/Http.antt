-- ===== src/Http.antt =====
-- What the route handlers of backend/src/index.ts and backend/src/routes/v1.ts answer, and what
-- they are called with once a body has passed its zod schema.
use stellar_kraal.Common.{
  str_eq, ℕ, String, ◌≡◌, refl, ◌⊎◌, inl, inr, Bool, false, Option, none, some,
}

-- `res.status(code).json(body)`, `res.status(code).json({ error })`, or an exception, which Express
-- hands to the error handler.
pub data Reply (A : Type 0) : Type 0 where
  reply : ℕ → A → Reply A
  refuse : ℕ → String → Reply A
  throws : String → Reply A

-- The result of `schema.safeParse(body)`.
pub data Validation (A : Type 0) : Type 0 where
  invalid : Validation A
  valid : A → Validation A

-- What `await` of a call outside this repository comes back with.
pub data Outcome (A : Type 0) : Type 0 where
  resolved : A → Outcome A
  rejected : String → Outcome A

-- `req.user`, as the authentication middleware leaves it.
pub record User : Type 0 where
  pub public_key : Option String
  pub role : Option String

-- `user?.publicKey`
abbrev pub key_of : Option User → Option String
key_of none = none
key_of (some u) = u.public_key

-- `user.role === 'admin'`
abbrev pub is_admin : User → Bool
is_admin u = elim u.role [ none ↦ false | some r ↦ str_eq r "admin" ]

pub Outcome-cases :
    {A : Type 0} (o : Outcome A) → ((a : A) × (o ≡ resolved a)) ⊎ ((e : String) × (o ≡ rejected e))
Outcome-cases (resolved a) = inl (a, refl)
Outcome-cases (rejected e) = inr (e, refl)
