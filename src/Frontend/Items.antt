-- ===== src/Frontend/Items.antt =====
-- frontend/src/components/wizard/steps/StepCollateral.tsx: the list of collateral items, in the order in
-- which they are pledged. `parse` is `parseInt`, with `none` for NaN and a negative number read as 0.
pub mod Laws
use mathlib.Core.List.Perm
use stellar_kraal.Common.{
  ◌<>◌, ltb, ◌==◌, str_eq, if◌then◌else◌, length, remove, ℕ, zero, suc, ◌+◌, ◌-◌, ◌<◌, String, ap,
  Bool, false, ◌||◌, Option, none, some, List, [], ◌∷◌, ◌++◌, Perm,
}

pub data AnimalType : Type 0 where
  cattle goat sheep : AnimalType

pub record CollateralItem : Type 0 where
  pub id : String
  pub animal_type : AnimalType
  pub count : String
  pub appraised_value : String
  pub collateral_id : String

-- `makeItem()`, under the id that it makes.
abbrev pub make_item : String → CollateralItem
make_item id = record {
  id = id;
  animal_type = cattle;
  count = "";
  appraised_value = "";
  collateral_id = "";
}

module _ {A : Type 0} where
  -- `xs[i]`
  abbrev pub at_index : ℕ → List A → Option A
  at_index i [] = none
  at_index zero (x ∷ xs) = some x
  at_index (suc i) (x ∷ xs) = at_index i xs

  -- `xs.filter((_, j) => j !== i)`, and `xs.splice(i, 1)`
  abbrev pub remove_at : ℕ → List A → List A
  remove_at i [] = []
  remove_at zero (x ∷ xs) = xs
  remove_at (suc i) (x ∷ xs) = x ∷ remove_at i xs

  -- `xs.splice(i, 0, a)`: past the end it appends.
  abbrev pub insert_at : ℕ → A → List A → List A
  insert_at zero a xs = a ∷ xs
  insert_at (suc i) a [] = a ∷ []
  insert_at (suc i) a (x ∷ xs) = x ∷ insert_at i a xs

  -- `xs.map((x, j) => j === i ? f(x) : x)`
  abbrev pub change_at : ℕ → (A → A) → List A → List A
  change_at i f [] = []
  change_at zero f (x ∷ xs) = f x ∷ xs
  change_at (suc i) f (x ∷ xs) = x ∷ change_at i f xs

  -- `from` is the index of an item wherever this is called.
  unfoldable pub move_item : ℕ → ℕ → List A → List A
  move_item from to xs =
      if from == to
      then xs
      else elim (at_index from xs) [ none ↦ xs | some x ↦ insert_at to x (remove_at from xs) ]

  unfoldable pub remove_item : ℕ → List A → List A
  remove_item i xs = if length xs == 1 then xs else remove_at i xs

-- `Partial<CollateralItem>`, as the inputs of an item set it.
pub data Patch : Type 0 where
  set_animal_type : AnimalType → Patch
  set_count set_appraised_value : String → Patch

abbrev pub patched : Patch → CollateralItem → CollateralItem
patched (set_animal_type t) c = record c { animal_type = t }
patched (set_count t) c = record c { count = t }
patched (set_appraised_value t) c = record c { appraised_value = t }

abbrev pub update_item : ℕ → Patch → List CollateralItem → List CollateralItem
update_item i p xs = change_at i (patched p) xs

abbrev pub add_item : String → List CollateralItem → List CollateralItem
add_item id xs = xs ++ (make_item id ∷ [])

-- The list, and the index that is being dragged.
pub record Board : Type 0 where
  pub collaterals : List CollateralItem
  pub drag_index : Option ℕ

-- The keys and the drag events that an item listens to.
pub data Gesture : Type 0 where
  arrow_up arrow_down drag_start drag_over : ℕ → Gesture
  drag_end : Gesture

unfoldable pub gesture : Gesture → Board → Board
gesture (arrow_up i) b =
    if ltb 0 i then record b { collaterals = move_item i (i - 1) b.collaterals } else b
gesture (arrow_down i) b =
    if ltb (i + 1) (length b.collaterals)
    then record b { collaterals = move_item i (i + 1) b.collaterals }
    else b
gesture (drag_start i) b = record b { drag_index = some i }
gesture (drag_over i) b = elim b.drag_index [
  | none ↦ b
  | some from ↦
      if from == i
      then b
      else record { collaterals = move_item from i b.collaterals; drag_index = some i }
]
gesture drag_end b = record b { drag_index = none }

abbrev pub gestures : List Gesture → Board → Board
gestures [] b = b
gestures (g ∷ gs) b = gestures gs (gesture g b)

-- `!t || parseInt(t) < 1`; a comparison with NaN is false.
abbrev pub is_below_one : (String → Option ℕ) → String → Bool
is_below_one parse t = str_eq t "" || elim (parse t) [ none ↦ false | some n ↦ ltb n 1 ]

-- `validate`, from the item with that number on; `show` prints a number.
unfoldable pub validate_items :
    (String → Option ℕ) → (ℕ → String) → ℕ → List CollateralItem → Option String
validate_items parse show i [] = none
validate_items parse show i (c ∷ cs) =
    let rest = validate_items parse show (suc i) cs in
    if is_below_one parse c.count
    then some ("Item " <> show i <> ": enter at least 1 animal.")
    else if is_below_one parse c.appraised_value
    then some ("Item " <> show i <> ": enter a valid appraised value.")
    else rest
