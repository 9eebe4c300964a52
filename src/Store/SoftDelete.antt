-- ===== src/Store/SoftDelete.antt =====
-- backend/src/db/store.ts: soft deletion and restoration.
use stellar_kraal.Common.{
  get, put, get-put_self, put-get, put-put, ℕ, String, ◌≡◌, ◌∙◌, true, false, none, some, arith,
}
use stellar_kraal.Store.Records.{LoanRecord, CollateralRecord, Store}
use stellar_kraal.Store.Loans.{get_loan, soft_delete_loan, restore_loan}
use stellar_kraal.Store.Collateral.{get_collateral, soft_delete_collateral, restore_collateral}

-- The stored row behind a visible one.
pub get_loan-eq-some :
    (id : String) (s : Store) (r : LoanRecord)
    → get_loan id s ≡ some r
    → (get id s.loans ≡ some r) × (r.deleted_at ≡ none)
unfolding get_loan
get_loan-eq-some id s r e = ground arith

pub get_collateral-eq-some :
    (id : String) (s : Store) (r : CollateralRecord)
    → get_collateral id s ≡ some r
    → (get id s.collateral ≡ some r) × (r.deleted_at ≡ none)
unfolding get_collateral
get_collateral-eq-some id s r e = ground arith

-- Deleting a visible loan succeeds and hides it; a second deletion is refused and changes nothing;
-- restoring succeeds and gives back the store as it was.
pub soft_delete_loan-round_trip :
    (now later : ℕ) (id : String) (s : Store) (r : LoanRecord)
    → get_loan id s ≡ some r
    → let (ok, s') = soft_delete_loan now id s in
      (ok ≡ true)
      × (get_loan id s' ≡ none)
      × (soft_delete_loan later id s' ≡ (false, s'))
      × (restore_loan id s' ≡ (true, s))
unfolding get_loan soft_delete_loan restore_loan
soft_delete_loan-round_trip now later id s r e =
    let (row, live) = get_loan-eq-some id s r e in
    let gone : LoanRecord = record r { deleted_at = some now } in
    let back = record r { deleted_at = none } in
    let same : back ≡ r = ground arith in
    let found = get-put_self id gone s.loans in
    let undone : put id back (put id gone s.loans) ≡ s.loans =
      put-put id gone back s.loans ∙ (rw same (put-get id r s.loans row)) in
    ground (arith, found, undone)

-- The same of collateral records.
pub soft_delete_collateral-round_trip :
    (now later : ℕ) (id : String) (s : Store) (r : CollateralRecord)
    → get_collateral id s ≡ some r
    → let (ok, s') = soft_delete_collateral now id s in
      (ok ≡ true)
      × (get_collateral id s' ≡ none)
      × (soft_delete_collateral later id s' ≡ (false, s'))
      × (restore_collateral id s' ≡ (true, s))
unfolding get_collateral soft_delete_collateral restore_collateral
soft_delete_collateral-round_trip now later id s r e =
    let (row, live) = get_collateral-eq-some id s r e in
    let gone : CollateralRecord = record r { deleted_at = some now } in
    let back = record r { deleted_at = none } in
    let same : back ≡ r = ground arith in
    let found = get-put_self id gone s.collateral in
    let undone : put id back (put id gone s.collateral) ≡ s.collateral =
      put-put id gone back s.collateral ∙ (rw same (put-get id r s.collateral row)) in
    ground (arith, found, undone)
