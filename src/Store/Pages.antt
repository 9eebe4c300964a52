-- ===== src/Store/Pages.antt =====
-- backend/src/db/store.ts: the pages of a listing, put one after another.
use stellar_kraal.Common.{
  length, take, drop, length-take, sort_desc, ℕ, zero, suc, ◌+◌, ◌-◌, ◌*◌, ◌≤◌, min, max, ◌≡◌, refl,
  ap, ◌∙◌, some, List, [], ◌∷◌, ◌++◌, arith,
}
use stellar_kraal.Store.Records.{LoanRecord, CollateralRecord, Store}
use stellar_kraal.Store.Paging.{slice, given, given_nonzero}
use stellar_kraal.Store.Loans.{LoanFilters, matching_loans, list_loans}
use stellar_kraal.Store.Collateral.{CollateralFilters, matching_collateral, list_collateral}

take-add {ℓ} :
    {A : Type ℓ} (n m : ℕ) (xs : List A) → take n xs ++ take m (drop n xs) ≡ take (n + m) xs
take-add zero m xs = rw (Prim.Native.Nat.add.zero m)
take-add (suc n) zero [] = rw (Prim.Native.Nat.add.suc n 0)
take-add (suc n) (suc m) [] = rw (Prim.Native.Nat.add.suc n (suc m))
take-add (suc n) m (x ∷ xs) = rw (take-add n m xs) (rw (Prim.Native.Nat.add.suc n m))

-- A page continues what the pages before it hold.
take-append-slice {ℓ} :
    {A : Type ℓ} (n from to : ℕ) (xs : List A)
    → to ≡ from + n
    → take from xs ++ slice from to xs ≡ take to xs
unfolding slice
take-append-slice n from to xs e =
    let width : to - from ≡ n = omega arith in rw width (rw (take-add from n xs) (rw e))

pub length-slice-le {ℓ} :
    {A : Type ℓ} (n from to : ℕ) (xs : List A) → to ≤ from + n → length (slice from to xs) ≤ n
unfolding slice
length-slice-le n from to xs h = omega (arith, length-take (to - from) (drop from xs))

-- The bounds that a listing computes for page `suc k`.
page_from : (k n : ℕ) → (max (suc k) 1 - 1) * n ≡ k * n
page_from k n = let e : max (suc k) 1 - 1 ≡ k = omega arith in rw e

page_to : (k n : ℕ) → max (suc k) 1 * n ≡ k * n + n
page_to k n = let e : max (suc k) 1 ≡ suc k = omega arith in rw e (omega arith)

page_end : (k n : ℕ) → suc k * n ≡ k * n + n
page_end k n = omega arith

page_step : (p n : ℕ) → 1 ≤ p → p * n ≤ (p - 1) * n + n
page_step zero n h = absurd (omega arith)
page_step (suc k) n h = let e : suc k - 1 ≡ k = omega arith in rw e (omega arith)

-- One more page of size `n`, from the bounds that the listing computes.
pub next_page {ℓ} :
    {A : Type ℓ} (k n from to : ℕ) (xs : List A)
    → from ≡ k * n
    → to ≡ k * n + n
    → take (k * n) xs ++ slice from to xs ≡ take (suc k * n) xs
next_page k n from to xs e h =
    rw (page_end k n, e, h) (take-append-slice n (k * n) (k * n + n) xs refl)

pub take_all {ℓ} : {A : Type ℓ} (n : ℕ) (xs : List A) → length xs ≤ n → take n xs ≡ xs
take_all zero [] h = refl
take_all zero (x ∷ xs) h = absurd (omega arith)
take_all (suc n) [] h = refl
take_all (suc n) (x ∷ xs) h = ap (λ ys. x ∷ ys) (take_all n xs (omega arith))

-- The rows of the pages 1 to k of a loan listing.
pub loan_pages : ℕ → LoanFilters → Store → List LoanRecord
loan_pages zero f s = []
loan_pages (suc k) f s = loan_pages k f s ++ (list_loans (record f { page = some (suc k) }) s).rows

pub collateral_pages : ℕ → CollateralFilters → Store → List CollateralRecord
collateral_pages zero f s = []
collateral_pages (suc k) f s =
    collateral_pages k f s ++ (list_collateral (record f { page = some (suc k) }) s).rows

abbrev loan_limit : LoanFilters → ℕ
loan_limit f = min (given_nonzero f.limit 20) 100

loan_pages-eq-take :
    (k : ℕ) (f : LoanFilters) (s : Store)
    → loan_pages k f s
      ≡ take (k * loan_limit f) (sort_desc (λ r. r.created_at) (matching_loans f s))
unfolding loan_pages list_loans matching_loans
loan_pages-eq-take zero f s = rw (Prim.Native.Nat.mul.zero (loan_limit f))
loan_pages-eq-take (suc k) f s =
    rw (loan_pages-eq-take k f s)
      (next_page k (loan_limit f) _ _ _ (page_from k (loan_limit f)) (page_to k (loan_limit f)))

abbrev collateral_limit : CollateralFilters → ℕ
collateral_limit f = min (given f.limit 20) 100

collateral_pages-eq-take :
    (k : ℕ) (f : CollateralFilters) (s : Store)
    → collateral_pages k f s
      ≡ take (k * collateral_limit f) (sort_desc (λ r. r.created_at) (matching_collateral f s))
unfolding collateral_pages list_collateral matching_collateral
collateral_pages-eq-take zero f s = rw (Prim.Native.Nat.mul.zero (collateral_limit f))
collateral_pages-eq-take (suc k) f s =
    let n = collateral_limit f in
    let from = page_from k n in
    rw (collateral_pages-eq-take k f s) (next_page k n _ _ _ from (ap (λ (t : ℕ). t + n) from))

-- Read from page 1 until the total is reached, a listing gives the sorted matching rows.
pub loan_pages_lem :
    (k : ℕ) (f : LoanFilters) (s : Store)
    → (list_loans f s).total ≤ k * (list_loans f s).limit
    → loan_pages k f s ≡ sort_desc (λ r. r.created_at) (matching_loans f s)
unfolding list_loans
loan_pages_lem k f s h = loan_pages-eq-take k f s ∙ take_all (k * loan_limit f) _ h

pub collateral_pages_lem :
    (k : ℕ) (f : CollateralFilters) (s : Store)
    → (list_collateral f s).total ≤ k * (list_collateral f s).limit
    → collateral_pages k f s ≡ sort_desc (λ r. r.created_at) (matching_collateral f s)
unfolding list_collateral
collateral_pages_lem k f s h =
    collateral_pages-eq-take k f s ∙ take_all (k * collateral_limit f) _ h

-- A page never holds more rows than its limit, and no limit is above 100.
pub list_loans_bounds :
    (f : LoanFilters) (s : Store)
    → (length (list_loans f s).rows ≤ (list_loans f s).limit) × ((list_loans f s).limit ≤ 100)
unfolding list_loans
list_loans_bounds f s =
    let n = loan_limit f in
    let p = max (given_nonzero f.page 1) 1 in
    let step : p * n ≤ (p - 1) * n + n = page_step p n (omega arith) in
    (length-slice-le n ((p - 1) * n) (p * n) _ step, omega arith)

pub list_collateral_bounds :
    (f : CollateralFilters) (s : Store)
    → (length (list_collateral f s).rows ≤ (list_collateral f s).limit)
      × ((list_collateral f s).limit ≤ 100)
unfolding list_collateral
list_collateral_bounds f s =
    let n = collateral_limit f in
    let start = (max (given f.page 1) 1 - 1) * n in
    let step : start + n ≤ start + n = omega arith in
    let rows = sort_desc (λ r. r.created_at) (matching_collateral f s) in
    (length-slice-le n start (start + n) rows step, omega arith)
