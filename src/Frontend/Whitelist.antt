-- ===== src/Frontend/Whitelist.antt =====
-- frontend/src/components/LiquidatorWhitelist.tsx over the list of
-- frontend/src/app/admin/liquidators/page.tsx, which keeps it in the browser. `trim` and the regular
-- expression of an address are arguments.
use stellar_kraal.Common.{
  ◌<>◌, str_eq, if◌then◌else◌, str_eq_sym, Bool-cases, filter_by, any_by, ℕ, String, ◌≡◌, refl, ◌∙◌,
  inl, inr, Bool, true, false, not, ◌||◌, Option, none, some, List, [], ◌∷◌, ◌++◌, arith,
}

pub record LiquidatorEntry : Type 0 where
  pub address : String
  pub added_at : ℕ

-- The page and the component: `liquidators` is the page's, the rest the component's.
pub record Panel : Type 0 where
  pub liquidators : List LiquidatorEntry
  pub new_address : String
  pub field_error : Option String
  pub success_message : Option String

abbrev pub new_panel : Panel
new_panel = record {
  liquidators = [];
  new_address = "";
  field_error = none;
  success_message = none;
}

abbrev pub has_address : String → List LiquidatorEntry → Bool
has_address a ls = any_by (λ l. str_eq l.address a) ls

-- The page's `handleAdd` and `handleRemove`, which cannot fail.
unfoldable pub page_add : ℕ → String → List LiquidatorEntry → List LiquidatorEntry
page_add now a ls = ls ++ (record { address = a; added_at = now } ∷ [])

unfoldable pub page_remove : String → List LiquidatorEntry → List LiquidatorEntry
page_remove a ls = filter_by (λ l. not (str_eq l.address a)) ls

has_address-append :
    (b : String) (ls : List LiquidatorEntry) (x : LiquidatorEntry)
    → has_address b (ls ++ (x ∷ [])) ≡ has_address b ls || str_eq x.address b
has_address-append b [] x = ground arith
has_address-append b (l ∷ ls) x =
    ground (arith, has_address-append b ls x, Bool-cases (str_eq l.address b))

has_address-page_remove :
    (b a : String) (ls : List LiquidatorEntry)
    → has_address b ls ≡ false
    → has_address b (page_remove a ls) ≡ false
unfolding page_remove
has_address-page_remove b a [] h = refl
has_address-page_remove b a (l ∷ ls) h =
    let head : str_eq l.address b ≡ false = ground (arith, h, Bool-cases (str_eq l.address b)) in
    let rest : has_address b ls ≡ false = ground (arith, h, Bool-cases (str_eq l.address b)) in
    let ih = has_address-page_remove b a ls rest in
    elim (Bool-cases (str_eq l.address a)) [ inl e ↦ rw e ih | inr e ↦ rw e (rw head ih) ]

has_address-page_remove_self :
    (a : String) (ls : List LiquidatorEntry) → has_address a (page_remove a ls) ≡ false
unfolding page_remove
has_address-page_remove_self a [] = refl
has_address-page_remove_self a (l ∷ ls) =
    let ih = has_address-page_remove_self a ls in
    elim (Bool-cases (str_eq l.address a)) [ inl e ↦ rw e ih | inr e ↦ rw (e, e) ih ]

pub data Action : Type 0 where
  types : String → Action
  adds : ℕ → Action
  removes : String → Action

module _ (trim : String → String) (is_address : String → Bool) (short : String → String) where
  -- `isValidStellarAddress`
  abbrev pub is_valid_stellar_address : String → Bool
  is_valid_stellar_address a = is_address (trim a)

  -- The component's `handleAdd`; `short` is the text that stands for an address in a message.
  unfoldable pub handle_add : ℕ → Panel → Panel
  unfolding page_add
  handle_add now p =
      let trimmed = trim p.new_address in
      let q : Panel = record p { success_message = none } in
      if str_eq trimmed ""
      then record q { field_error = some "Address is required." }
      else if not (is_valid_stellar_address trimmed)
      then record q {
        field_error = some "Enter a valid Stellar address (56 characters, starting with G or C).";
      }
      else if has_address trimmed p.liquidators
      then record q { field_error = some "This address is already on the whitelist." }
      else record {
        liquidators = page_add now trimmed p.liquidators;
        new_address = "";
        field_error = none;
        success_message = some (short trimmed <> " added to whitelist.");
      }

  unfoldable pub handle_remove : String → Panel → Panel
  unfolding page_remove
  handle_remove a p = record p {
    liquidators = page_remove a p.liquidators;
    success_message = some (short a <> " removed from whitelist.");
  }

  unfoldable pub act : Action → Panel → Panel
  unfolding handle_add handle_remove
  act (types t) p = record p { new_address = t }
  act (adds now) p = handle_add now p
  act (removes a) p = handle_remove a p

  abbrev pub run : List Action → Panel → Panel
  run [] p = p
  run (a ∷ as') p = run as' (act a p)

  -- Each address is valid, and stands in the list once.
  abbrev pub IsWhitelist : List LiquidatorEntry → Type 0
  IsWhitelist [] = Unit
  IsWhitelist (l ∷ ls) =
      (is_valid_stellar_address l.address ≡ true)
      × (has_address l.address ls ≡ false)
      × IsWhitelist ls

  page_add-IsWhitelist :
      (now : ℕ) (a : String) (ls : List LiquidatorEntry)
      → is_valid_stellar_address a ≡ true
      → has_address a ls ≡ false
      → IsWhitelist ls
      → IsWhitelist (page_add now a ls)
  unfolding page_add
  page_add-IsWhitelist now a [] v h w = (v, refl, tt)
  page_add-IsWhitelist now a (l ∷ ls) v h (v', h', w) =
      let other : str_eq l.address a ≡ false = ground (arith, h, Bool-cases (str_eq l.address a)) in
      let rest : has_address a ls ≡ false = ground (arith, h, Bool-cases (str_eq l.address a)) in
      (
        v',
        has_address-append l.address ls (record { address = a; added_at = now })
            ∙ ground (arith, h', other, str_eq_sym a l.address),
        page_add-IsWhitelist now a ls v rest w,
      )

  page_remove-IsWhitelist :
      (a : String) (ls : List LiquidatorEntry) → IsWhitelist ls → IsWhitelist (page_remove a ls)
  unfolding page_remove
  page_remove-IsWhitelist a [] w = tt
  page_remove-IsWhitelist a (l ∷ ls) (v, h, w) = elim (Bool-cases (str_eq l.address a)) [
    | inl e ↦ rw e (page_remove-IsWhitelist a ls w)
    | inr e ↦ rw e (v, has_address-page_remove l.address a ls h, page_remove-IsWhitelist a ls w)
  ]

  act-IsWhitelist :
      (c : Action) (p : Panel) → IsWhitelist p.liquidators → IsWhitelist (act c p).liquidators
  unfolding act handle_add handle_remove
  act-IsWhitelist (types t) p w = w
  act-IsWhitelist (removes a) p w = page_remove-IsWhitelist a p.liquidators w
  act-IsWhitelist (adds now) p w = elim (Bool-cases (str_eq (trim p.new_address) "")) [
    | inl e ↦ rw e w
    | inr e ↦ elim (Bool-cases (is_valid_stellar_address (trim p.new_address))) [
      | inr f ↦ rw (e, f) w
      | inl f ↦ elim (Bool-cases (has_address (trim p.new_address) p.liquidators)) [
        | inl g ↦ rw (e, f, g) w
        | inr g ↦ rw (e, f, g) (page_add-IsWhitelist now (trim p.new_address) p.liquidators f g w)
      ]
    ]
  ]

  run-IsWhitelist :
      (cs : List Action) (p : Panel)
      → IsWhitelist p.liquidators
      → IsWhitelist (run cs p).liquidators
  run-IsWhitelist [] p w = w
  run-IsWhitelist (c ∷ cs) p w = run-IsWhitelist cs (act c p) (act-IsWhitelist c p w)

  -- Whatever is typed, added and removed, each entry of the whitelist is a valid address that no other
  -- entry has, and an address that is removed is not on the list.
  pub handle_remove-run :
      (cs : List Action) (a : String)
      → IsWhitelist (run cs new_panel).liquidators
        × (has_address a (handle_remove a (run cs new_panel)).liquidators ≡ false)
  unfolding handle_remove
  handle_remove-run cs a = (
    run-IsWhitelist cs new_panel tt,
    has_address-page_remove_self a (run cs new_panel).liquidators,
  )
