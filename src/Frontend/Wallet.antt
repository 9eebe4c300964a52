-- ===== src/Frontend/Wallet.antt =====
-- frontend/src/hooks/useWallet.ts: the connected wallet, over the answers of the browser's extension. The
-- extension answers with an object for yes and for no, so what the hook sees is whether it answers.
use stellar_kraal.Common.{
  str_eq, Bool-cases, Option-cases, String, ◌≡◌, refl, ◌∙◌, inl, inr, Bool, true, false, Option,
  none, some, List, [], ◌∷◌, arith,
}
use stellar_kraal.Http.{Outcome, resolved, rejected}
use stellar_kraal.Store.Paging.{truthy}

pub record Wallet : Type 0 where
  pub address : Option String
  pub freighter_installed : Option Bool
  pub connecting : Bool
  pub error : Option String
  pub storage : Option String

abbrev pub first_wallet : Option String → Wallet
first_wallet storage = record {
  address = none;
  freighter_installed = none;
  connecting = false;
  error = none;
  storage = storage;
}

-- The effect on mount: the answers of `isConnected` and `isAllowed`, each the flag in its object.
unfoldable pub detect : Outcome Bool → Outcome Bool → Wallet → Wallet
detect (rejected e) allowed w = record w { freighter_installed = some false }
detect (resolved connected) allowed w = elim (truthy w.storage) [
  | none ↦ record w { freighter_installed = some true }
  | some persisted ↦ elim allowed [
    | rejected e ↦ record w { freighter_installed = some true; storage = none }
    | resolved flag ↦ record w { freighter_installed = some true; address = some persisted }
  ]
]

unfoldable pub connect_begin : Wallet → Wallet
connect_begin w = record w { connecting = true; error = none }

-- The answers of `setAllowed` and `getAddress`.
unfoldable pub connect_finish : Outcome Bool → Outcome String → Wallet → Wallet
connect_finish (rejected e) got w = record w { error = some e; connecting = false }
connect_finish (resolved flag) (rejected e) w = record w { error = some e; connecting = false }
connect_finish (resolved flag) (resolved addr) w = record w {
  address = some addr;
  storage = some addr;
  connecting = false;
}

unfoldable pub disconnect : Wallet → Wallet
disconnect w = record w { address = none; storage = none }

pub data Action : Type 0 where
  connects : Outcome Bool → Outcome String → Action
  disconnects : Action

unfoldable pub act : Action → Wallet → Wallet
unfolding connect_begin connect_finish disconnect
act (connects allowed got) w = connect_finish allowed got (connect_begin w)
act disconnects w = disconnect w

abbrev pub run : List Action → Wallet → Wallet
run [] w = w
run (a ∷ as') w = run as' (act a w)

-- What is stored is the address that is shown, where either is a text that is not empty.
abbrev pub IsKept : Wallet → Type 0
IsKept w = truthy w.storage ≡ truthy w.address

detect-IsKept :
    (connected : Bool) (allowed : Outcome Bool) (storage : Option String)
    → IsKept (detect (resolved connected) allowed (first_wallet storage))
unfolding detect
detect-IsKept connected allowed none = refl
detect-IsKept connected allowed (some t) = elim (Bool-cases (str_eq t "")) [
  | inl e ↦ ground (arith, e)
  | inr e ↦ elim allowed [ rejected w ↦ ground (arith, e) | resolved flag ↦ ground (arith, e) ]
]

act-IsKept : (a : Action) (w : Wallet) → IsKept w → IsKept (act a w)
unfolding act
act-IsKept (connects (rejected e) got) w h = h
act-IsKept (connects (resolved flag) (rejected e)) w h = h
act-IsKept (connects (resolved flag) (resolved addr)) w h = refl
act-IsKept disconnects w h = refl

run-IsKept : (as' : List Action) (w : Wallet) → IsKept w → IsKept (run as' w)
run-IsKept [] w h = h
run-IsKept (a ∷ as') w h = run-IsKept as' (act a w) (act-IsKept a w h)

detect-first_wallet :
    (connected allowed : Bool) (storage : Option String)
    → (detect (resolved connected) (resolved allowed) (first_wallet storage)).address
      ≡ truthy storage
unfolding detect
detect-first_wallet connected allowed storage = ground (arith, Option-cases (truthy storage))

-- Whatever is connected and disconnected on a page whose extension answered when it opened, the page
-- comes back after a reload with the address that it showed, if the extension answers again: also if its
-- answer is that the site is not allowed any more.
pub run-detect :
    (connected connected' allowed' : Bool) (allowed : Outcome Bool) (storage : Option String)
    (as' : List Action)
    → let w = run as' (detect (resolved connected) allowed (first_wallet storage)) in
      (detect (resolved connected') (resolved allowed') (first_wallet w.storage)).address
      ≡ truthy w.address
run-detect connected connected' allowed' allowed storage as' =
    let w = run as' (detect (resolved connected) allowed (first_wallet storage)) in
    detect-first_wallet connected' allowed' w.storage
    ∙ run-IsKept as' _ (detect-IsKept connected allowed storage)
