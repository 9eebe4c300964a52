-- ===== src/Common/Sort.antt =====
-- `Array.prototype.sort` with the comparator `key(b) - key(a)`: a stable sort, newest first.
use Prim.Native.Nat.{ℕ, ◌≤◌}
use mathlib.Core.Path.{◌≡◌, refl}
use mathlib.Core.Logic.{inl, inr}
use mathlib.Core.List.{List, [], ◌∷◌, Perm}
use mathlib.Core.List.Perm
use native.Mathlib.Omega.{arith}
use stellar_kraal.Common.Tests.{if◌then◌else◌, leb, Bool-cases}
use stellar_kraal.Common.Lists.{length, All}

module _ {ℓ} {A : Type ℓ} (key : A → ℕ) where
  unfoldable pub insert_desc : A → List A → List A
  insert_desc x [] = x ∷ []
  insert_desc x (y ∷ ys) = if leb (key y) (key x) then x ∷ y ∷ ys else y ∷ insert_desc x ys

  unfoldable pub sort_desc : List A → List A
  unfolding insert_desc
  sort_desc [] = []
  sort_desc (x ∷ xs) = insert_desc x (sort_desc xs)

  -- Each element is at least as new as all that follow it.
  abbrev pub IsSorted : List A → Type 0
  IsSorted [] = Unit
  IsSorted (x ∷ xs) = All (λ y. key y ≤ key x) xs × IsSorted xs

  All-weaken : (n m : ℕ) (xs : List A) → n ≤ m → All (λ y. key y ≤ n) xs → All (λ y. key y ≤ m) xs
  All-weaken n m [] h k = tt
  All-weaken n m (x ∷ xs) h (p, k) = (omega arith, All-weaken n m xs h k)

  insert_desc-All :
      (n : ℕ) (x : A) (xs : List A)
      → key x ≤ n
      → All (λ y. key y ≤ n) xs
      → All (λ y. key y ≤ n) (insert_desc x xs)
  unfolding insert_desc
  insert_desc-All n x [] h k = (h, tt)
  insert_desc-All n x (y ∷ ys) h (p, k) = elim (Bool-cases (leb (key y) (key x))) [
    | inl e ↦ rw e (h, (p, k))
    | inr e ↦ rw e (p, insert_desc-All n x ys h k)
  ]

  insert_desc-IsSorted : (x : A) (xs : List A) → IsSorted xs → IsSorted (insert_desc x xs)
  unfolding insert_desc
  insert_desc-IsSorted x [] s = (tt, tt)
  insert_desc-IsSorted x (y ∷ ys) (below, s) = elim (Bool-cases (leb (key y) (key x))) [
    | inl e ↦
        let le : key y ≤ key x = ground arith in
        rw e ((le, All-weaken (key y) (key x) ys le below), (below, s))
    | inr e ↦
        let le : key x ≤ key y = ground arith in
        rw e (insert_desc-All (key y) x ys le below, insert_desc-IsSorted x ys s)
  ]

  pub sort_desc-IsSorted : (xs : List A) → IsSorted (sort_desc xs)
  unfolding sort_desc
  sort_desc-IsSorted [] = tt
  sort_desc-IsSorted (x ∷ xs) = insert_desc-IsSorted x (sort_desc xs) (sort_desc-IsSorted xs)

  insert_desc-perm : (x : A) (xs : List A) → Perm (insert_desc x xs) (x ∷ xs)
  unfolding insert_desc
  insert_desc-perm x [] = Perm.refl _
  insert_desc-perm x (y ∷ ys) = elim (Bool-cases (leb (key y) (key x))) [
    | inl e ↦ rw e (Perm.refl _)
    | inr e ↦ rw e (Perm.trans (Perm.cons y (insert_desc-perm x ys)) (Perm.swap x y ys))
  ]

  pub sort_desc-perm : (xs : List A) → Perm (sort_desc xs) xs
  unfolding sort_desc
  sort_desc-perm [] = Perm.refl _
  sort_desc-perm (x ∷ xs) =
      Perm.trans (insert_desc-perm x (sort_desc xs)) (Perm.cons x (sort_desc-perm xs))

  length-insert_desc : (x : A) (xs : List A) → length (insert_desc x xs) ≡ length (x ∷ xs)
  unfolding insert_desc
  length-insert_desc x [] = refl
  length-insert_desc x (y ∷ ys) = ground (arith, length-insert_desc x ys)

  pub length-sort_desc : (xs : List A) → length (sort_desc xs) ≡ length xs
  unfolding sort_desc
  length-sort_desc [] = refl
  length-sort_desc (x ∷ xs) =
      ground (arith, length-insert_desc x (sort_desc xs), length-sort_desc xs)
