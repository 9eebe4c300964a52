-- ===== src/Auth/Keys.antt =====
-- backend/src/middleware/apiKey.ts: the life of an API key.
use stellar_kraal.Common.{
  ◌==◌, str_eq, if◌then◌else◌, str_eq_refl, Bool-cases, All, Dict, get, put, values, get-put_self,
  put-put, ℕ, String, ◌≡◌, refl, ◌∙◌, inl, inr, true, false, none, some, [], ◌∷◌, arith,
}
use text.Mathlib.Text.{starts_with}
use stellar_kraal.Auth.ApiKey.{
  ApiKeyRecord, created, revoked, forbidden, bearer, create_key, is_revoked, find_key,
  authenticate_api_key, revoke_key,
}

-- No key of the store has a hash.
abbrev pub IsNewHash : String → Dict ApiKeyRecord → Type 0
IsNewHash hashed keys = All (λ (r : ApiKeyRecord). str_eq r.key_hash hashed ≡ false) (values keys)

find_key-put :
    (hashed id : String)
    → (r : ApiKeyRecord) → (keys : Dict ApiKeyRecord) → str_eq r.key_hash hashed ≡ true
    → IsNewHash hashed keys
    → find_key hashed (values (put id r keys))
      ≡ (if is_revoked r then none else some r.owner_public_key)
unfolding find_key put values
find_key-put hashed id r [] same new = rw same refl
find_key-put hashed id r ((i, w) ∷ keys) same (h, new) = elim (Bool-cases (str_eq i id)) [
  | inl e ↦ rw e (rw same refl)
  | inr e ↦ rw e (rw h (find_key-put hashed id r keys same new))
]

-- The record that a key is created with.
abbrev new_key : String → ℕ → String → String → ApiKeyRecord
new_key hashed now id owner = record {
  id = id;
  owner_public_key = owner;
  key_hash = hashed;
  created_at = now;
  revoked_at = none;
}

create_key-known :
    (hash_key : String → String)
    → (now : ℕ) → (raw id owner : String) → (keys : Dict ApiKeyRecord) → str_eq owner "" ≡ false
    → create_key hash_key now raw id (some owner) keys
      ≡ (created id raw, put id (new_key (hash_key raw) now id owner) keys)
unfolding create_key
create_key-known hash_key now raw id owner keys known = ground arith

revoke_key-known :
    (now : ℕ)
    → (id user : String) → (r : ApiKeyRecord) → (keys : Dict ApiKeyRecord) → str_eq user "" ≡ false
    → get id keys ≡ some r
    → revoke_key now id (some user) keys ≡ (
        if str_eq r.owner_public_key user
        then (revoked, put id (record r { revoked_at = some now }) keys)
        else (forbidden, keys))
unfolding revoke_key
revoke_key-known now id user r keys known found = ground arith

-- The life of an API key. A key that a signed-in user creates, with a hash that no key of the store
-- has, authenticates as that user; nobody else can revoke it; and after its owner revoked it, at
-- any time but 0, it authenticates no one.
pub key_lifecycle :
    (hash_key : String → String)
    → (now later : ℕ) → (raw id owner other : String) → (keys : Dict ApiKeyRecord)
    → str_eq owner "" ≡ false
    → str_eq other "" ≡ false
    → str_eq owner other ≡ false
    → starts_with raw "sk_" ≡ true
    → later == 0 ≡ false
    → IsNewHash (hash_key raw) keys
    → let keys' = (create_key hash_key now raw id (some owner) keys).1 in
      (authenticate_api_key hash_key (bearer raw) keys' ≡ some owner)
      × (revoke_key later id (some other) keys' ≡ (forbidden, keys'))
      × (authenticate_api_key hash_key (bearer raw) (revoke_key later id (some owner) keys').1
          ≡ none)
unfolding authenticate_api_key
key_lifecycle hash_key now later raw id owner other keys known known' differ prefix later_on new =
    let r : ApiKeyRecord = new_key (hash_key raw) now id owner in
    let r' : ApiKeyRecord = record r { revoked_at = some later } in
    let same = str_eq_refl (hash_key raw) in
    let found = get-put_self id r keys in
    rw (create_key-known hash_key now raw id owner keys known) (
      rw prefix (find_key-put (hash_key raw) id r keys same new),
      rw (revoke_key-known later id other r (put id r keys) known' found) (rw differ refl),
      rw (revoke_key-known later id owner r (put id r keys) known found) (
          rw (str_eq_refl owner) (
            rw (put-put id r r' keys)
              (rw prefix (find_key-put (hash_key raw) id r' keys same new ∙ rw later_on refl)))),
    )
