-- ===== src/Store/Paging.antt =====
-- backend/src/db/store.ts: what the four listings share. Each one filters by the filters that are
-- given, one after another, sorts newest first and cuts out a page.
use stellar_kraal.Common.{
  leb, str_eq, if◌then◌else◌, take, drop, filter_by, ℕ, zero, suc, ◌-◌, String, Bool, false, Option,
  none, some, List,
}

pub record Page {ℓ} (A : Type ℓ) : Type ℓ where
  pub rows : List A
  pub total : ℕ
  pub page : ℕ
  pub limit : ℕ

-- `xs.slice(start, end)` for whole `start` and `end`
unfoldable pub slice {ℓ} : {A : Type ℓ} → ℕ → ℕ → List A → List A
slice from to xs = take (to - from) (drop from xs)

-- `n ?? d`
abbrev pub given {ℓ} : {A : Type ℓ} → Option A → A → A
given none d = d
given (some n) d = n

-- An optional field under a spread: what is absent from the update stays.
abbrev pub or_keep {ℓ} : {A : Type ℓ} → Option A → Option A → Option A
or_keep none old = old
or_keep (some n) old = some n

-- An optional string as a condition: the empty string counts as absent.
abbrev pub truthy : Option String → Option String
truthy none = none
truthy (some a) = if str_eq a "" then none else some a

-- `n || d`: zero is falsy too
abbrev pub given_nonzero : Option ℕ → ℕ → ℕ
given_nonzero none d = d
given_nonzero (some zero) d = d
given_nonzero (some (suc n)) d = suc n

-- `if (filter) results = results.filter(...)`
unfoldable pub filter_given {ℓ κ} :
    {A : Type ℓ} {F : Type κ} → Option F → (F → A → Bool) → List A → List A
filter_given none test xs = xs
filter_given (some f) test xs = filter_by (test f) xs

-- What `new Date(text)` reads from a given bound: a text that is no date compares false with all.
pub data DateBound : Type 0 where
  invalid_date : DateBound
  instant : ℕ → DateBound

-- `new Date(createdAt) >= new Date(bound)`
abbrev pub not_before : DateBound → ℕ → Bool
not_before invalid_date at = false
not_before (instant t) at = leb t at

-- `new Date(createdAt) <= new Date(bound)`
abbrev pub not_after : DateBound → ℕ → Bool
not_after invalid_date at = false
not_after (instant t) at = leb at t
