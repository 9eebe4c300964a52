-- ===== src/Frontend/Pagination.antt =====
-- frontend/src/hooks/usePagination.ts: the page of a list that the URL names. `parse` is `parseInt`,
-- with a negative number read as 0, which no rule here tells from it.
use stellar_kraal.Store.Paging.{slice}
use stellar_kraal.Store.Pages.{next_page, take_all, length-slice-le}
use stellar_kraal.Common.{
  ◌==◌, if◌then◌else◌, Option-cases, length, take, any_by, ℕ, zero, suc, ◌+◌, ◌-◌, ◌*◌, ◌/◌, ◌≤◌,
  min, max, ◌≡◌, ap, ◌∙◌, ◌⊎◌, inl, inr, Bool, Option, none, some, List, [], ◌∷◌, ◌++◌, arith,
}

abbrev pub page_size_options : List ℕ
page_size_options = 10 ∷ 25 ∷ 50 ∷ []

-- The parsed query: `none` for what is no number; a missing parameter has its default.
pub record Query : Type 0 where
  pub raw_page : Option ℕ
  pub raw_limit : Option ℕ

abbrev pub is_page_size : ℕ → Bool
is_page_size n = any_by (λ x. x == n) page_size_options

unfoldable pub limit_of : Query → ℕ
limit_of q = elim q.raw_limit [ none ↦ 10 | some n ↦ if is_page_size n then n else 10 ]

-- `Math.max(1, Math.ceil(totalItems / limit))`
unfoldable pub total_pages : ℕ → Query → ℕ
unfolding limit_of
total_pages total q = max 1 ((total + limit_of q - 1) / limit_of q)

unfoldable pub page_of : ℕ → Query → ℕ
unfolding total_pages
page_of total q = min (max 1 (elim q.raw_page [ none ↦ 1 | some p ↦ p ])) (total_pages total q)

-- `navigate` writes the numbers, which are read back as they are.
unfoldable pub set_page : ℕ → Query → Query
set_page p q = record q { raw_page = some p }

unfoldable pub set_limit : ℕ → Query → Query
set_limit l q = record { raw_page = some 1; raw_limit = some l }

-- `slice(items)`, for the items that `totalItems` counts.
unfoldable pub page_slice {ℓ} : {A : Type ℓ} → Query → List A → List A
unfolding page_of
page_slice q items =
    let start = (page_of (length items) q - 1) * limit_of q in
    slice start (start + limit_of q) items

limit_of-cases : (q : Query) → (limit_of q ≡ 10) ⊎ (limit_of q ≡ 25) ⊎ (limit_of q ≡ 50)
unfolding limit_of
limit_of-cases q = ground (arith, Option-cases q.raw_limit)

-- The pages together hold every item.
total_pages-covers : (total : ℕ) (q : Query) → total ≤ total_pages total q * limit_of q
unfolding total_pages
total_pages-covers total q = elim (limit_of-cases q) [
  | inl e ↦ rw e (omega arith)
  | inr (inl e) ↦ rw e (omega arith)
  | inr (inr e) ↦ rw e (omega arith)
]

-- The pages 1 to k, one after another, as `setPage` leads to them.
abbrev pub pages {ℓ} : {A : Type ℓ} → ℕ → Query → List A → List A
pages zero q items = []
pages (suc k) q items = pages k q items ++ page_slice (set_page (suc k) q) items

page_of-set_page :
    (total p : ℕ) (q : Query) → 1 ≤ p → p ≤ total_pages total q → page_of total (set_page p q) ≡ p
unfolding page_of set_page total_pages limit_of
page_of-set_page total p q lo hi = omega arith

pages-eq-take {ℓ} :
    {A : Type ℓ} (k : ℕ) (q : Query) (items : List A)
    → k ≤ total_pages (length items) q
    → pages k q items ≡ take (k * limit_of q) items
unfolding page_slice set_page limit_of
pages-eq-take zero q items h = rw (Prim.Native.Nat.mul.zero (limit_of q))
pages-eq-take (suc k) q items h =
    let at = page_of-set_page (length items) (suc k) q (omega arith) h in
    let start : page_of (length items) (set_page (suc k) q) - 1 ≡ k = omega (arith, at) in
    ap (λ xs. xs ++ page_slice (set_page (suc k) q) items) (pages-eq-take k q items (omega arith))
    ∙ next_page k (limit_of q) _ _ items (ap (λ n. n * limit_of q) start)
        (ap (λ n. n * limit_of q + limit_of q) start)

-- Whatever page and size the URL asks for, the page that is shown is one of the pages 1 to the last and
-- has no more items than the size; the pages from the first to the last, one after another, are the
-- whole list; and choosing another size leads to page 1.
pub pages_complete {ℓ} :
    {A : Type ℓ} (l : ℕ) (q : Query) (items : List A)
    → let n = length items in
      (1 ≤ page_of n q)
      × (page_of n q ≤ total_pages n q)
      × (length (page_slice q items) ≤ limit_of q)
      × (pages (total_pages n q) q items ≡ items)
      × (page_of n (set_limit l q) ≡ 1)
unfolding page_of page_slice set_limit total_pages
pages_complete l q items =
    let n = length items in
    (
      omega arith,
      omega arith,
      length-slice-le (limit_of q) _ _ items (omega arith),
      pages-eq-take (total_pages n q) q items (omega arith)
          ∙ take_all (total_pages n q * limit_of q) items (total_pages-covers n q),
      omega arith,
    )
