-- ===== src/Frontend/Items/Laws.antt =====
-- frontend/src/components/wizard/steps/StepCollateral.tsx: what moving the items does to their list.
use stellar_kraal.Common.{
  ltb, ◌==◌, Bool-cases, Option-cases, length, ℕ, zero, suc, ◌+◌, ◌-◌, ◌≤◌, ◌<◌, ◌≡◌, refl, sym, ap,
  ◌∙◌, subst, inl, inr, false, some, List, [], ◌∷◌, Perm, arith,
}
use stellar_kraal.Frontend.Items.{
  at_index, remove_at, insert_at, move_item, Board, Gesture, gesture, gestures, arrow_up,
  arrow_down, drag_start, drag_over, drag_end,
}
use mathlib.Core.List.Perm

module _ {A : Type 0} where
  insert_at-perm : (i : ℕ) (a : A) (xs : List A) → Perm (insert_at i a xs) (a ∷ xs)
  insert_at-perm zero a xs = Perm.refl _
  insert_at-perm (suc i) a [] = Perm.refl _
  insert_at-perm (suc i) a (x ∷ xs) =
      Perm.trans (Perm.cons x (insert_at-perm i a xs)) (Perm.swap a x xs)

  insert_at-remove_at :
      (i : ℕ) (a : A) (xs : List A) → at_index i xs ≡ some a → insert_at i a (remove_at i xs) ≡ xs
  insert_at-remove_at i a [] e = cc
  insert_at-remove_at zero a (x ∷ xs) e = cc
  insert_at-remove_at (suc i) a (x ∷ xs) e = rw (insert_at-remove_at i a xs e)

  at_index-insert_at :
      (i : ℕ) (a : A) (xs : List A) → i ≤ length xs → at_index i (insert_at i a xs) ≡ some a
  at_index-insert_at zero a xs h = refl
  at_index-insert_at (suc i) a [] h = absurd (omega arith)
  at_index-insert_at (suc i) a (x ∷ xs) h = at_index-insert_at i a xs (omega arith)

  remove_at-insert_at :
      (i : ℕ) (a : A) (xs : List A) → i ≤ length xs → remove_at i (insert_at i a xs) ≡ xs
  remove_at-insert_at zero a xs h = refl
  remove_at-insert_at (suc i) a [] h = absurd (omega arith)
  remove_at-insert_at (suc i) a (x ∷ xs) h = rw (remove_at-insert_at i a xs (omega arith))

  length-remove_at :
      (i : ℕ) (xs : List A) → i < length xs → suc (length (remove_at i xs)) ≡ length xs
  length-remove_at i [] h = absurd (omega arith)
  length-remove_at zero (x ∷ xs) h = refl
  length-remove_at (suc i) (x ∷ xs) h = omega (arith, length-remove_at i xs (omega arith))

  at_index-total : (i : ℕ) (xs : List A) → i < length xs → (a : A) × (at_index i xs ≡ some a)
  at_index-total i [] h = absurd (omega arith)
  at_index-total zero (x ∷ xs) h = (x, refl)
  at_index-total (suc i) (x ∷ xs) h = at_index-total i xs (omega arith)

  move_item-perm : (from to : ℕ) (xs : List A) → Perm (move_item from to xs) xs
  unfolding move_item
  move_item-perm from to xs = elim (Bool-cases (from == to)) [
    | inl e ↦ rw e (Perm.refl xs)
    | inr e ↦ elim (Option-cases (at_index from xs)) [
      | inl k ↦ rw (move_item, e, k) (Perm.refl xs)
      | inr (a, k) ↦
          rw (move_item, e, k)
            (subst (λ ys. Perm (insert_at to a (remove_at from xs)) ys)
              (insert_at-remove_at from a xs k)
              (Perm.trans (insert_at-perm to a (remove_at from xs))
                (Perm.symm (insert_at-perm from a (remove_at from xs)))))
    ]
  ]

  move_item_self : (i : ℕ) (xs : List A) → move_item i i xs ≡ xs
  unfolding move_item
  move_item_self i xs = ground arith

  move_item-ne :
      (from to : ℕ) (a : A) (xs : List A)
      → (from == to) ≡ false
      → at_index from xs ≡ some a
      → move_item from to xs ≡ insert_at to a (remove_at from xs)
  unfolding move_item
  move_item-ne from to a xs e k = rw (move_item, e, k) refl

  -- Moving an item puts it where it was sent, and moving it back from there restores the order.
  pub move_item-move_item :
      (from to : ℕ) (xs : List A)
      → from < length xs
      → to < length xs
      → (at_index to (move_item from to xs) ≡ at_index from xs)
        × (move_item to from (move_item from to xs) ≡ xs)
  move_item-move_item from to xs h k = elim (Bool-cases (from == to)) [
    | inl e ↦
        let same : from ≡ to = ground arith in
        rw (same, move_item_self to xs) (refl, move_item_self to xs)
    | inr e ↦
        let (a, there) = at_index-total from xs h in
        let ys = remove_at from xs in
        let fits : to ≤ length ys = omega (arith, length-remove_at from xs h) in
        let back : (to == from) ≡ false = ground (arith, e) in
        rw (move_item-ne from to a xs e there) (
          at_index-insert_at to a ys fits ∙ sym there,
          move_item-ne to from a (insert_at to a ys) back (at_index-insert_at to a ys fits)
              ∙ ap (insert_at from a) (remove_at-insert_at to a ys fits)
              ∙ insert_at-remove_at from a xs there,
        )
  ]

gesture-perm : (g : Gesture) (b : Board) → Perm (gesture g b).collaterals b.collaterals
unfolding gesture
gesture-perm (arrow_up i) b = elim (Bool-cases (ltb 0 i)) [
  | inl e ↦ rw e (move_item-perm i (i - 1) b.collaterals)
  | inr e ↦ rw e (Perm.refl b.collaterals)
]
gesture-perm (arrow_down i) b = elim (Bool-cases (ltb (i + 1) (length b.collaterals))) [
  | inl e ↦ rw e (move_item-perm i (i + 1) b.collaterals)
  | inr e ↦ rw e (Perm.refl b.collaterals)
]
gesture-perm (drag_start i) b = Perm.refl b.collaterals
gesture-perm (drag_over i) b = elim (Option-cases b.drag_index) [
  | inl e ↦ rw (gesture, e) (Perm.refl b.collaterals)
  | inr (from, e) ↦ elim (Bool-cases (from == i)) [
    | inl k ↦ rw (gesture, e, k) (Perm.refl b.collaterals)
    | inr k ↦ rw (gesture, e, k) (move_item-perm from i b.collaterals)
  ]
]
gesture-perm drag_end b = Perm.refl b.collaterals

-- Whatever is dragged and moved with the arrow keys, the items are the same ones in some order: none is
-- lost, doubled or changed.
pub gestures-perm : (gs : List Gesture) (b : Board) → Perm (gestures gs b).collaterals b.collaterals
gestures-perm [] b = Perm.refl b.collaterals
gestures-perm (g ∷ gs) b = Perm.trans (gestures-perm gs (gesture g b)) (gesture-perm g b)
