-- ===== src/Loans/Create/Counting.antt =====
-- Counting the rows of a table that pass a test, under the writes of a table.
use stellar_kraal.Common.{
  if◌then◌else◌, any_by, Dict, get, put, values, ℕ, suc, ◌+◌, String, ◌≡◌, refl, Bool, true, false,
  none, some, List, [], ◌∷◌, ◌++◌, arith,
}

module _ {ℓ} {A : Type ℓ} where
  abbrev pub count_by : (A → Bool) → List A → ℕ
  count_by p [] = 0
  count_by p (x ∷ xs) = if p x then suc (count_by p xs) else count_by p xs

  -- One if the test passes.
  abbrev pub weight : (A → Bool) → A → ℕ
  weight p x = if p x then 1 else 0

  pub count_by-zero_of_any_by :
      (p : A → Bool) (xs : List A) → any_by p xs ≡ false → count_by p xs ≡ 0
  count_by-zero_of_any_by p [] h = refl
  count_by-zero_of_any_by p (x ∷ xs) h = ground (arith, count_by-zero_of_any_by p xs)

  -- A new row.
  pub count_by-put_new :
      (p : A → Bool) (k : String) (v : A) (m : Dict A)
      → get k m ≡ none
      → count_by p (values (put k v m)) ≡ count_by p (values m) + weight p v
  unfolding get put values
  count_by-put_new p k v [] e = ground arith
  count_by-put_new p k v ((j, w) ∷ m) e = ground (arith, count_by-put_new p k v m)

  -- A row in the place of another.
  pub count_by-put_old :
      (p : A → Bool) (k : String) (v w : A) (m : Dict A)
      → get k m ≡ some w
      → count_by p (values (put k v m)) + weight p w ≡ count_by p (values m) + weight p v
  unfolding get put values
  count_by-put_old p k v w [] e = cc
  count_by-put_old p k v w ((j, u) ∷ m) e = ground (arith, count_by-put_old p k v w m)

module _ {ℓ} {A : Type ℓ} (p : A → Bool) where
  pub count_by-insert :
      (t : A) (xs ys : List A) → count_by p (xs ++ t ∷ ys) ≡ count_by p (xs ++ ys) + weight p t
  count_by-insert t [] ys = ground arith
  count_by-insert t (x ∷ xs) ys = ground (arith, count_by-insert t xs ys)

  pub any_by-false_of_count_by : (xs : List A) → count_by p xs ≡ 0 → any_by p xs ≡ false
  any_by-false_of_count_by [] h = refl
  any_by-false_of_count_by (x ∷ xs) h = ground (arith, any_by-false_of_count_by xs)

  pub any_by-insert :
      (t : A) (xs ys : List A)
      → any_by p (xs ++ t ∷ ys) ≡ (if p t then true else any_by p (xs ++ ys))
  any_by-insert t [] ys = ground arith
  any_by-insert t (x ∷ xs) ys = ground (arith, any_by-insert t xs ys)
