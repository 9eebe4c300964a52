-- ===== src/Common/Maps.antt =====
-- A JavaScript `Map` with string keys: an association list in insertion order. `set` on a key that
-- is present keeps its place, as the language says.
use Prim.Native.String.{String}
use mathlib.Core.Path.{◌≡◌, refl, sym, subst}
use mathlib.Core.Logic.{◌≢◌, inl, inr}
use mathlib.Core.Option.{Option, none, some}
use mathlib.Core.List.{List, [], ◌∷◌}
use native.Mathlib.Omega.{arith}
use stellar_kraal.Common.Tests.{if◌then◌else◌, str_eq, str_eq_iff, Bool-cases}

abbrev pub Dict {ℓ} : Type ℓ → Type ℓ
Dict V = List (String × V)

module _ {ℓ} {V : Type ℓ} where
  -- `m.get(k)`
  unfoldable pub get : String → Dict V → Option V
  get k [] = none
  get k ((j, v) ∷ m) = if str_eq j k then some v else get k m

  -- `m.set(k, v)`
  unfoldable pub put : String → V → Dict V → Dict V
  put k v [] = (k, v) ∷ []
  put k v ((j, w) ∷ m) = if str_eq j k then (j, v) ∷ m else (j, w) ∷ put k v m

  -- `m.delete(k)`; the keys are distinct, so at most one entry goes.
  unfoldable pub remove : String → Dict V → Dict V
  remove k [] = []
  remove k ((j, w) ∷ m) = if str_eq j k then remove k m else (j, w) ∷ remove k m

  -- `m.values()`
  unfoldable pub values : Dict V → List V
  values [] = []
  values ((j, v) ∷ m) = v ∷ values m

  pub get-put :
      (k j : String) (v : V) (m : Dict V)
      → get j (put k v m) ≡ (if str_eq k j then some v else get j m)
  unfolding get put
  get-put k j v [] = refl
  get-put k j v ((i, w) ∷ m) =
      ground (arith, str_eq_iff k j, str_eq_iff i k, str_eq_iff i j, get-put k j v m)

  pub get-put_self : (k : String) (v : V) (m : Dict V) → get k (put k v m) ≡ some v
  get-put_self k v m = ground (arith, get-put k k v m, str_eq_iff k k)

  pub get-put_ne : (k j : String) (v : V) (m : Dict V) → k ≢ j → get j (put k v m) ≡ get j m
  get-put_ne k j v m h = ground (arith, get-put k j v m, str_eq_iff k j)

  pub get-remove :
      (k j : String) (m : Dict V) → get j (remove k m) ≡ (if str_eq k j then none else get j m)
  unfolding get remove
  get-remove k j [] = ground arith
  get-remove k j ((i, w) ∷ m) =
      ground (arith, str_eq_iff k j, str_eq_iff i k, str_eq_iff i j, get-remove k j m)

  pub get-remove_self : (k : String) (m : Dict V) → get k (remove k m) ≡ none
  get-remove_self k m = ground (arith, get-remove k k m, str_eq_iff k k)

  pub get-remove_ne : (k j : String) (m : Dict V) → k ≢ j → get j (remove k m) ≡ get j m
  get-remove_ne k j m h = ground (arith, get-remove k j m, str_eq_iff k j)

  -- Writing back what is there changes nothing.
  pub put-get : (k : String) (v : V) (m : Dict V) → get k m ≡ some v → put k v m ≡ m
  unfolding get put
  put-get k v [] e = cc
  put-get k v ((i, w) ∷ m) e = ground (arith, put-get k v m)

  -- The second of two writes under one key wins.
  pub put-put : (k : String) (v w : V) (m : Dict V) → put k w (put k v m) ≡ put k w m
  unfolding put
  put-put k v w [] = ground (arith, str_eq_iff k k)
  put-put k v w ((i, u) ∷ m) = ground (arith, put-put k v w m)

module _ {ℓ κ} {V : Type ℓ} (P : String → V → Type κ) where
  -- A property of every entry, key and value.
  abbrev pub Entries : Dict V → Type κ
  Entries [] = Unit
  Entries ((k, v) ∷ m) = P k v × Entries m

  pub Entries-put : (k : String) (v : V) (m : Dict V) → Entries m → P k v → Entries (put k v m)
  unfolding put
  Entries-put k v [] h p = (p, tt)
  Entries-put k v ((i, w) ∷ m) (q, h) p = elim (Bool-cases (str_eq i k)) [
    | inl same ↦ rw same (subst (λ s. P s v) (sym ((str_eq_iff i k).0 same)) p, h)
    | inr other ↦ rw other (q, Entries-put k v m h p)
  ]

module _ {ℓ} {V : Type ℓ} where
  -- No key stands twice, as in every JavaScript `Map`.
  abbrev pub HasDistinctKeys : Dict V → Type ℓ
  HasDistinctKeys [] = Unit
  HasDistinctKeys ((k, v) ∷ m) = (get k m ≡ none) × HasDistinctKeys m

  pub HasDistinctKeys-put :
      (k : String) (v : V) (m : Dict V) → HasDistinctKeys m → HasDistinctKeys (put k v m)
  unfolding put
  HasDistinctKeys-put k v [] h = (unfold get in refl, tt)
  HasDistinctKeys-put k v ((j, w) ∷ m) (fresh, h) = elim (Bool-cases (str_eq j k)) [
    | inl same ↦ rw same (fresh, h)
    | inr other ↦ rw other (
      ground (arith, get-put k j v m, str_eq_iff j k, str_eq_iff k j),
      HasDistinctKeys-put k v m h,
    )
  ]
