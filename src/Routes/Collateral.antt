-- ===== src/Routes/Collateral.antt =====
-- The collateral routes of backend/src/index.ts: POST, PATCH, DELETE and PATCH restore of
-- /api/v1/collateral. PATCH /api/v1/collateral/:id is registered twice; Express runs the first one.
use stellar_kraal.Common.{
  str_eq, if◌then◌else◌, Bool-cases, Option-cases, is_some, Dict, put, get-put_self, ℕ, ◌<◌, String,
  ◌≡◌, refl, ◌⊎◌, inl, inr, Bool, true, false, not, ◌||◌, Option, none, some, arith,
}
use stellar_kraal.Http.{User, key_of, is_admin, Reply, reply, refuse}
use stellar_kraal.Auth.ApiKey.{known_key}
use stellar_kraal.Store.Records.{CollateralRecord, Store}
use stellar_kraal.Store.Collateral.{
  CollateralUpdates, no_collateral_updates, insert_collateral, get_collateral,
  get_collateral_including_deleted, update_collateral, soft_delete_collateral, restore_collateral,
}
use stellar_kraal.Store.Loans.{is_collateral_pledged}
use stellar_kraal.Store.SoftDelete.{get_collateral-eq-some, soft_delete_collateral-round_trip}
use stellar_kraal.Caches.Responses.{CachedBody, invalidate_cache}

-- `req.body` past `createCollateralSchema`.
pub record CreateCollateralInput : Type 0 where
  pub animal_type : String
  pub count : ℕ
  pub appraised_value : ℕ

-- The tables and the response cache.
pub record Site (B : Type 0) : Type 0 where
  pub store : Store
  pub responses : Dict (CachedBody B)

unfoldable pub register_collateral_route :
    {B : Type 0}
    → ℕ
    → String
    → Option User
    → CreateCollateralInput
    → Site B
    → Reply CollateralRecord × Site B
register_collateral_route now id user input site = elim (known_key (key_of user)) [
  | none ↦ (refuse 401 "Authenticated wallet address required", site)
  | some owner ↦
      let (row, store) =
        insert_collateral now
          (record {
            id = id;
            owner = owner;
            animal_type = input.animal_type;
            breed = none;
            age_years = none;
            weight_kg = none;
            photo_url = none;
            count = input.count;
            appraised_value = input.appraised_value;
            species = none;
            age = none;
            weight = none;
            image_url = none;
            status = none;
          })
          site.store in
      (
        reply 201 row,
        record { store = store; responses = invalidate_cache "/api/collateral" site.responses },
      )
]

-- `req.body` past `updateCollateralSchema`.
pub record UpdateCollateralInput : Type 0 where
  pub animal_type : Option String
  pub count : Option ℕ
  pub appraised_value : Option ℕ

abbrev pub updates_of : UpdateCollateralInput → CollateralUpdates
updates_of u = record no_collateral_updates {
  animal_type = u.animal_type;
  count = u.count;
  appraised_value = u.appraised_value;
}

unfoldable pub update_collateral_route :
    {B : Type 0} → String → UpdateCollateralInput → Site B → Reply CollateralRecord × Site B
update_collateral_route id input site = elim (get_collateral id site.store) [
  | none ↦ (refuse 404 "Record not found", site)
  | some row ↦
      let (updated, store) = update_collateral id (updates_of input) site.store in
      elim updated [
        | none ↦ (refuse 404 "Record not found", record site { store = store })
        | some new ↦ (
          reply 200 new,
          record { store = store; responses = invalidate_cache "/api/collateral" site.responses },
        )
      ]
]

-- `config.ADMIN_API_KEY`, and the two headers that may hold it.
pub record AdminKeys : Type 0 where
  pub configured : Option String
  pub x_admin_key : Option String
  pub admin_api_key : Option String

abbrev pub is_text : String → Option String → Bool
is_text s none = false
is_text s (some t) = str_eq t s

abbrev pub has_admin_key : AdminKeys → Option User → Bool
has_admin_key a user = elim (known_key a.configured) [
  | none ↦ false
  | some key ↦ is_text key (key_of user) || is_text key a.x_admin_key || is_text key a.admin_api_key
]

abbrev pub is_admin_user : Option User → Bool
is_admin_user none = false
is_admin_user (some u) = is_admin u

abbrev pub may_delete : AdminKeys → Option User → CollateralRecord → Bool
may_delete a user row =
    is_text row.owner (key_of user) || is_admin_user user || has_admin_key a user

-- `handleDeleteCollateral`
unfoldable pub handle_delete_collateral :
    ℕ → String → AdminKeys → Option User → Store → Reply String × Store
handle_delete_collateral now id admin user s = elim (get_collateral id s) [
  | none ↦ (refuse 404 "Record not found", s)
  | some row ↦
      if is_collateral_pledged id s
      then (refuse 409 "Collateral is currently pledged to an active loan", s)
      else if not (may_delete admin user row)
      then (refuse 403 "Forbidden: Only the owner or an admin can delete this collateral", s)
      else let (ok, s') = soft_delete_collateral now id s in
        if not ok then (refuse 404 "Record not found", s') else (reply 200 id, s')
]

-- PATCH /api/v1/collateral/:id/restore
unfoldable pub restore_collateral_route : {B : Type 0} → String → Site B → Reply String × Site B
restore_collateral_route id site = elim (get_collateral_including_deleted id site.store) [
  | none ↦ (refuse 404 "Record not found or not deleted", site)
  | some row ↦
      if not (is_some row.deleted_at)
      then (refuse 404 "Record not found or not deleted", site)
      else if is_collateral_pledged id site.store
      then (refuse 409 "Collateral is currently pledged to an active loan", site)
      else let (restored, store) = restore_collateral id site.store in
        if not restored
        then (refuse 404 "Record not found or not deleted", record site { store = store })
        else (
          reply 200 id,
          record { store = store; responses = invalidate_cache "/api/collateral" site.responses },
        )
]

-- A visible record that backs no open loan is deleted at the wish of its owner or an administrator:
-- the answer is 200 and the record is hidden.
pub handle_delete_collateral_lem :
    (now : ℕ) (id : String) (admin : AdminKeys) (user : Option User) (s : Store)
    (row : CollateralRecord)
    → get_collateral id s ≡ some row
    → is_collateral_pledged id s ≡ false
    → may_delete admin user row ≡ true
    → let (answer, s') = handle_delete_collateral now id admin user s in
      (answer ≡ reply 200 id) × (get_collateral id s' ≡ none)
unfolding handle_delete_collateral
handle_delete_collateral_lem now id admin user s row found free allowed =
    let (ok, hidden, again, back) = soft_delete_collateral-round_trip now now id s row found in
    rw (found, free, allowed, ok, handle_delete_collateral) (refl, hidden)

-- What a deletion may come to: a refusal that changes nothing, or the deletion of a visible record that
-- backs no open loan, wanted by its owner or an administrator, which changes the entry of that record only.
abbrev pub IsDeletion : ℕ → String → AdminKeys → Option User → Store → Reply String × Store → Type 0
IsDeletion now id admin user s (answer, s') =
    ((code : ℕ) × (why : String) × (answer ≡ refuse code why) × (s' ≡ s))
    ⊎ ((row : CollateralRecord) × (get_collateral id s ≡ some row)
        × (is_collateral_pledged id s ≡ false)
        × (may_delete admin user row ≡ true)
        × (answer ≡ reply 200 id)
        × (s'
            ≡ record s { collateral = put id (record row { deleted_at = some now }) s.collateral }))

soft_delete_collateral-some :
    (now : ℕ) (id : String) (s : Store) (row : CollateralRecord)
    → get_collateral id s ≡ some row
    → soft_delete_collateral now id s
      ≡ (true, record s { collateral = put id (record row { deleted_at = some now }) s.collateral })
unfolding soft_delete_collateral
soft_delete_collateral-some now id s row found =
    let (stored, live) = get_collateral-eq-some id s row found in ground (arith, stored, live)

-- A request to delete either is refused and changes nothing, or the record is visible, backs no open loan
-- and the user owns it or is an administrator, and then the record is marked as deleted, the answer is
-- 200, and no other record, loan or transaction is touched.
pub handle_delete_collateral-guarded :
    (now : ℕ) (id : String) (admin : AdminKeys) (user : Option User) (s : Store)
    → IsDeletion now id admin user s (handle_delete_collateral now id admin user s)
unfolding handle_delete_collateral
handle_delete_collateral-guarded now id admin user s = elim (Option-cases (get_collateral id s)) [
  | inl h ↦ inl (
    404,
    "Record not found",
    rw (h, handle_delete_collateral) refl,
    rw (h, handle_delete_collateral) refl,
  )
  | inr (row, h) ↦ elim (Bool-cases (is_collateral_pledged id s)) [
    | inl p ↦ inl (
      409,
      "Collateral is currently pledged to an active loan",
      rw (h, p, handle_delete_collateral) refl,
      rw (h, p, handle_delete_collateral) refl,
    )
    | inr p ↦ elim (Bool-cases (may_delete admin user row)) [
      | inl m ↦
          let ran = soft_delete_collateral-some now id s row h in
          inr (
            row,
            h,
            p,
            m,
            rw (h, p, m, ran, handle_delete_collateral) refl,
            rw (h, p, m, ran, handle_delete_collateral) refl,
          )
      | inr m ↦ inl (
        403,
        "Forbidden: Only the owner or an admin can delete this collateral",
        rw (h, p, m, handle_delete_collateral) refl,
        rw (h, p, m, handle_delete_collateral) refl,
      )
    ]
  ]
]

-- The PATCH that Express runs does not look at loans: it lowers the value of a collateral that backs
-- an open loan, which backs that loan still.
pub update_collateral_route-lowers :
    {B : Type 0} (id : String) (value : ℕ) (row : CollateralRecord) (site : Site B)
    → get_collateral id site.store ≡ some row
    → value < row.appraised_value
    → is_collateral_pledged id site.store ≡ true
    → let input : UpdateCollateralInput = record {
      animal_type = none;
      count = none;
      appraised_value = some value;
    } in
      let s' = (update_collateral_route id input site).1.store in
      (get_collateral id s' ≡ some (record row { appraised_value = value }))
      × (value < row.appraised_value)
      × (is_collateral_pledged id s' ≡ true)
unfolding update_collateral_route update_collateral get_collateral is_collateral_pledged
update_collateral_route-lowers id value row site found less pledged =
    let (stored, live) = get_collateral-eq-some id site.store row found in
    let put_back = get-put_self id (record row { appraised_value = value }) site.store.collateral in
    (ground (arith, stored, live, put_back), less, ground (arith, stored, live, pledged))
