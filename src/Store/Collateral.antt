-- ===== src/Store/Collateral.antt =====
-- backend/src/db/store.ts: the collateral table. The clock is an argument, `now`.
use stellar_kraal.Common.{
  str_eq, if◌then◌else◌, is_some, length, filter_by, get, put, values, sort_desc, ℕ, ◌+◌, ◌-◌, ◌*◌,
  min, max, String, Bool, true, false, not, Option, none, some, List, [], ◌∷◌, ◌++◌,
}
use stellar_kraal.Store.Records.{
  AppraisalEntry, CollateralStatus, available, CollateralRecord, Store, same_collateral_status,
  holds,
}
use stellar_kraal.Store.Paging.{Page, slice, given, or_keep, truthy, filter_given}

-- The argument of `insertCollateral`.
pub record CollateralInput : Type 0 where
  pub id : String
  pub owner : String
  pub animal_type : String
  pub breed : Option String
  pub age_years : Option ℕ
  pub weight_kg : Option ℕ
  pub photo_url : Option String
  pub count : ℕ
  pub appraised_value : ℕ
  pub species : Option String
  pub age : Option ℕ
  pub weight : Option ℕ
  pub image_url : Option String
  pub status : Option CollateralStatus

abbrev pub new_collateral : ℕ → CollateralInput → CollateralRecord
new_collateral now c = record {
  id = c.id;
  owner = c.owner;
  animal_type = c.animal_type;
  breed = c.breed;
  age_years = c.age_years;
  weight_kg = c.weight_kg;
  photo_url = c.photo_url;
  count = c.count;
  appraised_value = c.appraised_value;
  appraisal_history = record { date = now; value = c.appraised_value; appraiser = none } ∷ [];
  species = c.species;
  age = c.age;
  weight = c.weight;
  image_url = c.image_url;
  status = some (given c.status available);
  created_at = now;
  deleted_at = none;
}

unfoldable pub insert_collateral : ℕ → CollateralInput → Store → CollateralRecord × Store
insert_collateral now c s =
    (new_collateral now c, record s { collateral = put c.id (new_collateral now c) s.collateral })

abbrev pub appraised : ℕ → ℕ → Option String → CollateralRecord → CollateralRecord
appraised now value appraiser r = record r {
  appraised_value = value;
  appraisal_history =
      r.appraisal_history
      ++ record { date = now; value = value; appraiser = truthy appraiser } ∷ [];
}

unfoldable pub add_appraisal : ℕ → String → ℕ → Option String → Store → Bool × Store
add_appraisal now id value appraiser s = elim (get id s.collateral) [
  | none ↦ (false, s)
  | some r ↦
      if is_some r.deleted_at
      then (false, s)
      else (true, record s { collateral = put id (appraised now value appraiser r) s.collateral })
]

unfoldable pub get_appraisal_history : String → ℕ → ℕ → Store → Option (Page AppraisalEntry)
get_appraisal_history id page limit s = elim (get id s.collateral) [
  | none ↦ none
  | some r ↦
      if is_some r.deleted_at
      then none
      else let sorted = sort_desc (λ e. e.date) r.appraisal_history in
        let capped = min limit 100 in
        let safe = max page 1 in
        some (record {
          rows = slice ((safe - 1) * capped) (safe * capped) sorted;
          total = length sorted;
          page = safe;
          limit = capped;
        })
]

pub record CollateralFilters : Type 0 where
  pub status : Option CollateralStatus
  pub owner_id : Option String
  pub page : Option ℕ
  pub limit : Option ℕ

unfoldable pub matching_collateral : CollateralFilters → Store → List CollateralRecord
unfolding filter_given
matching_collateral f s =
    let live = filter_by (λ r. not (is_some r.deleted_at)) (values s.collateral) in
    let by_status =
      filter_given f.status (λ st r. holds (λ x. same_collateral_status x st) r.status) live in
    filter_given (truthy f.owner_id) (λ o r. str_eq r.owner o) by_status

unfoldable pub list_collateral : CollateralFilters → Store → Page CollateralRecord
unfolding matching_collateral slice
list_collateral f s =
    let limit = min (given f.limit 20) 100 in
    let page = max (given f.page 1) 1 in
    let results = sort_desc (λ r. r.created_at) (matching_collateral f s) in
    let start = (page - 1) * limit in
    record {
      rows = slice start (start + limit) results;
      total = length results;
      page = page;
      limit = limit;
    }

unfoldable pub get_collateral : String → Store → Option CollateralRecord
get_collateral id s = elim (get id s.collateral) [
  | none ↦ none
  | some r ↦ if is_some r.deleted_at then none else some r
]

unfoldable pub get_collateral_including_deleted : String → Store → Option CollateralRecord
get_collateral_including_deleted id s = get id s.collateral

-- `Partial<…>`: the fields that are present. (No caller passes an explicit `undefined`.)
pub record CollateralUpdates : Type 0 where
  pub owner : Option String
  pub animal_type : Option String
  pub breed : Option String
  pub age_years : Option ℕ
  pub weight_kg : Option ℕ
  pub photo_url : Option String
  pub count : Option ℕ
  pub appraised_value : Option ℕ
  pub appraisal_history : Option (List AppraisalEntry)
  pub species : Option String
  pub age : Option ℕ
  pub weight : Option ℕ
  pub image_url : Option String
  pub status : Option CollateralStatus
  pub deleted_at : Option (Option ℕ)

abbrev pub no_collateral_updates : CollateralUpdates
no_collateral_updates = record {
  owner = none;
  animal_type = none;
  breed = none;
  age_years = none;
  weight_kg = none;
  photo_url = none;
  count = none;
  appraised_value = none;
  appraisal_history = none;
  species = none;
  age = none;
  weight = none;
  image_url = none;
  status = none;
  deleted_at = none;
}

-- `{ ...record, ...updates }`
abbrev pub merge_collateral : CollateralRecord → CollateralUpdates → CollateralRecord
merge_collateral r u = record r {
  owner = given u.owner r.owner;
  animal_type = given u.animal_type r.animal_type;
  breed = or_keep u.breed r.breed;
  age_years = or_keep u.age_years r.age_years;
  weight_kg = or_keep u.weight_kg r.weight_kg;
  photo_url = or_keep u.photo_url r.photo_url;
  count = given u.count r.count;
  appraised_value = given u.appraised_value r.appraised_value;
  appraisal_history = given u.appraisal_history r.appraisal_history;
  species = or_keep u.species r.species;
  age = or_keep u.age r.age;
  weight = or_keep u.weight r.weight;
  image_url = or_keep u.image_url r.image_url;
  status = or_keep u.status r.status;
  deleted_at = given u.deleted_at r.deleted_at;
}

unfoldable pub update_collateral :
    String → CollateralUpdates → Store → Option CollateralRecord × Store
update_collateral id u s = elim (get id s.collateral) [
  | none ↦ (none, s)
  | some r ↦ (
    some (merge_collateral r u),
    record s { collateral = put id (merge_collateral r u) s.collateral },
  )
]

unfoldable pub soft_delete_collateral : ℕ → String → Store → Bool × Store
soft_delete_collateral now id s = elim (get id s.collateral) [
  | none ↦ (false, s)
  | some r ↦ if is_some r.deleted_at then (false, s) else (
    true,
    record s { collateral = put id (record r { deleted_at = some now }) s.collateral },
  )
]

unfoldable pub restore_collateral : String → Store → Bool × Store
restore_collateral id s = elim (get id s.collateral) [
  | none ↦ (false, s)
  | some r ↦
      if is_some r.deleted_at
      then (true, record s { collateral = put id (record r { deleted_at = none }) s.collateral })
      else (false, s)
]

unfoldable pub list_deleted_collateral : Store → List CollateralRecord
list_deleted_collateral s = filter_by (λ r. is_some r.deleted_at) (values s.collateral)
