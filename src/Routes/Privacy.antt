-- ===== src/Routes/Privacy.antt =====
-- GET /api/v1/transactions of backend/src/index.ts: whose transactions it shows.
use stellar_kraal.Common.{
  str_eq, str_eq_iff, Bool-cases, Option-cases, length, drop, filter_by, All, All-take, All-drop,
  values, insert_desc, sort_desc, ℕ, zero, suc, ◌+◌, ◌-◌, ◌*◌, ◌≤◌, String, ◌≡◌, inl, inr, Bool,
  true, Option, none, some, List, [], ◌∷◌, arith, All-filter_by,
}
use stellar_kraal.Http.{User, key_of, Reply, reply}
use stellar_kraal.Auth.ApiKey.{known_key}
use stellar_kraal.Store.Records.{TransactionRecord, Store}
use stellar_kraal.Store.Paging.{Page, slice, filter_given, truthy, given, given_nonzero}
use stellar_kraal.Store.Pages.{length-slice-le}
use stellar_kraal.Store.Transactions.{TransactionFilters, matching_transactions, list_transactions}
use stellar_kraal.Routes.Transactions.{
  TransactionQuery, my_transactions_route, positive_whole, whole_within, is_unknown, type_of,
  status_of,
}

-- Filtering, sorting and cutting keep a property of all rows.
All-filter_given {ℓ κ} :
    {A : Type ℓ} {F : Type 0} (P : A → Type κ) (o : Option F) (test : F → A → Bool) (xs : List A)
    → All P xs
    → All P (filter_given o test xs)
unfolding filter_given
All-filter_given P none test xs h = h
All-filter_given P (some f) test xs h = All-filter_by P (test f) xs h

All-insert_desc {ℓ κ} :
    {A : Type ℓ} (P : A → Type κ) (key : A → ℕ) (x : A) (xs : List A)
    → P x
    → All P xs
    → All P (insert_desc key x xs)
unfolding insert_desc
All-insert_desc P key x [] h hs = (h, tt)
All-insert_desc P key x (y ∷ ys) h (k, ks) =
    ground (arith, h, k, ks, All-insert_desc P key x ys h ks)

All-sort_desc {ℓ κ} :
    {A : Type ℓ} (P : A → Type κ) (key : A → ℕ) (xs : List A) → All P xs → All P (sort_desc key xs)
unfolding sort_desc
All-sort_desc P key [] h = tt
All-sort_desc P key (x ∷ xs) (h, hs) = All-insert_desc P key x _ h (All-sort_desc P key xs hs)

All-slice {ℓ κ} :
    {A : Type ℓ} (P : A → Type κ) (from to : ℕ) (xs : List A) → All P xs → All P (slice from to xs)
unfolding slice
All-slice P from to xs h = All-take P (to - from) (drop from xs) (All-drop P from xs h)

-- The filter on the borrower.
filter_by-borrower :
    (key : String) (ts : List TransactionRecord)
    → All (λ t. t.borrower ≡ key) (filter_by (λ t. str_eq t.borrower key) ts)
filter_by-borrower key [] = tt
filter_by-borrower key (t ∷ ts) = elim (Bool-cases (str_eq t.borrower key)) [
  | inl e ↦ rw e ((str_eq_iff t.borrower key).0 e, filter_by-borrower key ts)
  | inr e ↦ rw e (filter_by-borrower key ts)
]

list_transactions-borrower :
    (key : String) (f : TransactionFilters) (s : Store)
    → truthy f.borrower ≡ some key
    → All (λ t. t.borrower ≡ key) (list_transactions f s).rows
unfolding list_transactions matching_transactions filter_given
list_transactions-borrower key f s e =
    let P : TransactionRecord → Type 0 = λ t. t.borrower ≡ key in
    All-slice P _ _ _ (
      All-sort_desc P _ _ (
        All-filter_given P f.end_date _ _ (
          All-filter_given P f.start_date _ _ (
            All-filter_given P (truthy f.collateral_id) _ _ (
              All-filter_given P (truthy f.loan_id) _ _ (
                All-filter_given P f.status _ _ (
                  All-filter_given P f.type _ _
                    (rw e (filter_by-borrower key (values s.transactions))))))))))

-- An answer with a page shows at most a hundred transactions, and only those of the known user.
abbrev pub IsOwn : Option User → Reply (Page TransactionRecord) → Type 0
IsOwn user (reply n p) =
    (key : String) × (known_key (key_of user) ≡ some key)
    × All (λ t. t.borrower ≡ key) p.rows
    × (length p.rows ≤ 100)
IsOwn user _ = Unit

list_transactions-length :
    (f : TransactionFilters) (s : Store)
    → given_nonzero f.page_size 20 ≤ 100
    → length (list_transactions f s).rows ≤ 100
unfolding list_transactions
list_transactions-length f s h =
    let size = given_nonzero f.page_size 20 in
    let start = (given_nonzero f.page 1 - 1) * size in
    let rows = sort_desc (λ t. t.created_at) (matching_transactions f s) in
    omega (arith, length-slice-le size start (start + size) rows (omega arith))

page_size_bound : (o : Option ℕ) → whole_within 100 o ≡ true → given_nonzero o 20 ≤ 100
page_size_bound none h = omega arith
page_size_bound (some zero) h = omega arith
page_size_bound (some (suc n)) h = ground (arith, h)

-- A known key is no empty text.
known_key-truthy :
    (o : Option String) (key : String) → known_key o ≡ some key → truthy (some key) ≡ some key
known_key-truthy none key h = cc
known_key-truthy (some k) key h = elim (Bool-cases (str_eq k "")) [
  | inl e ↦ absurd (ground (arith, e, h))
  | inr e ↦ ground (arith, e, h)
]

-- Whatever borrower or other filters the query names, the listing of the authenticated user shows a
-- transaction only if it is that user's, never more than a hundred, and no page without a user.
pub my_transactions_route-IsOwn :
    (user : Option User) (q : TransactionQuery) (s : Store)
    → IsOwn user (my_transactions_route user q s)
unfolding my_transactions_route
my_transactions_route-IsOwn user q s = elim (Option-cases (known_key (key_of user))) [
  | inl k ↦ rw (k, my_transactions_route) tt
  | inr (key, k) ↦ elim (Bool-cases (positive_whole (given q.page (some 1)))) [
    | inr e ↦ rw (k, e, my_transactions_route) tt
    | inl e ↦ elim (Bool-cases (whole_within 100 (given q.page_size (some 20)))) [
      | inr e1 ↦ rw (k, e, e1, my_transactions_route) tt
      | inl e1 ↦ elim (Bool-cases (is_unknown type_of q.type)) [
        | inl e2 ↦ rw (k, e, e1, e2, my_transactions_route) tt
        | inr e2 ↦ elim (Bool-cases (is_unknown status_of q.status)) [
          | inl e3 ↦ rw (k, e, e1, e2, e3, my_transactions_route) tt
          | inr e3 ↦
              rw (k, e, e1, e2, e3, my_transactions_route)
                (
                  key,
                  k,
                  list_transactions-borrower key _ s (known_key-truthy (key_of user) key k),
                  list_transactions-length _ s (page_size_bound _ e1),
                )
        ]
      ]
    ]
  ]
]
