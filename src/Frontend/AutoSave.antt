-- ===== src/Frontend/AutoSave.antt =====
-- frontend/src/hooks/useFormAutoSave.ts: the draft of a form in localStorage. A stored text is what
-- `JSON.parse` reads of it; `trim` is an argument.
use stellar_kraal.Common.{
  str_eq, if◌then◌else◌, Bool-cases, any_by, Dict, get, put, remove, get-put_self, ℕ, String, ◌≡◌,
  refl, ◌∙◌, inl, inr, Bool, true, false, not, ◌&&◌, Option, none, some, List, arith,
}
use stellar_kraal.Store.Paging.{truthy}

pub record SavedData (T : Type 0) : Type 0 where
  pub wallet_address : Option String
  pub data_of : T
  pub timestamp : ℕ

pub data Stored (T : Type 0) : Type 0 where
  unreadable : Stored T
  readable : SavedData T → Stored T

-- `lastSaved` and `hasSavedData`
pub record AutoSave : Type 0 where
  pub last_saved : Option ℕ
  pub has_saved_data : Bool

abbrev pub initial_auto_save : AutoSave
initial_auto_save = record { last_saved = none; has_saved_data = false }

-- A value of a form: a text, a number, or anything else with its truthiness.
pub data FormValue : Type 0 where
  text : String → FormValue
  number : FormValue
  other : Bool → FormValue

abbrev pub is_filled : (String → String) → FormValue → Bool
is_filled trim (text t) = not (str_eq (trim t) "")
is_filled trim number = true
is_filled trim (other b) = b

abbrev pub same_wallet : String → Option String → Bool
same_wallet w none = false
same_wallet w (some v) = str_eq v w

-- `!walletAddress || parsed.walletAddress === walletAddress`
unfoldable pub is_readable_by : {T : Type 0} → Option String → SavedData T → Bool
is_readable_by wallet saved = elim (truthy wallet) [
  | none ↦ true
  | some w ↦ same_wallet w saved.wallet_address
]

module _ {T : Type 0} where
  -- The check on mount.
  unfoldable pub check_saved : String → Option String → Dict (Stored T) → AutoSave → AutoSave
  check_saved key wallet storage s = elim (get key storage) [
    | some (readable saved) ↦
        if is_readable_by wallet saved then record s { has_saved_data = true } else s
    | some unreadable ↦ s
    | none ↦ s
  ]

  -- One round of the interval; it is not set up for a form that is off or empty.
  unfoldable pub auto_save :
      (String → String)
      → ℕ
      → Bool
      → String
      → Option String
      → List FormValue
      → T
      → Dict (Stored T) × AutoSave
      → Dict (Stored T) × AutoSave
  auto_save trim now enabled key wallet fields data_of (storage, s) =
      if enabled && any_by (is_filled trim) fields
      then (
        put key
            (readable
              (record { wallet_address = truthy wallet; data_of = data_of; timestamp = now }))
            storage,
        record s { last_saved = some now },
      )
      else (storage, s)

  unfoldable pub restore_saved_data :
      String → Option String → Dict (Stored T) × AutoSave → Option T × AutoSave
  restore_saved_data key wallet (storage, s) = elim (get key storage) [
    | some (readable saved) ↦
        if is_readable_by wallet saved
        then (some saved.data_of, record s { has_saved_data = false })
        else (none, s)
    | some unreadable ↦ (none, s)
    | none ↦ (none, s)
  ]

  unfoldable pub clear_saved_data : String → Dict (Stored T) × AutoSave → Dict (Stored T) × AutoSave
  clear_saved_data key (storage, s) =
      (remove key storage, record s { has_saved_data = false; last_saved = none })

  abbrev draft_of : ℕ → String → T → SavedData T
  draft_of now writer draft = record {
    wallet_address = some writer;
    data_of = draft;
    timestamp = now;
  }

  get-auto_save :
      (trim : String → String) (now : ℕ) (key writer : String) (fields : List FormValue) (draft : T)
      (storage : Dict (Stored T)) (s : AutoSave)
      → any_by (is_filled trim) fields ≡ true
      → str_eq writer "" ≡ false
      → get key ((auto_save trim now true key (some writer) fields draft (storage, s)).0)
        ≡ some (readable (draft_of now writer draft))
  unfolding auto_save
  get-auto_save trim now key writer fields draft storage s filled named =
      rw filled (rw named (get-put_self key (readable (draft_of now writer draft)) storage))

  restore_saved_data-readable :
      (key : String) (reader : Option String) (saved : SavedData T) (storage : Dict (Stored T))
      (s : AutoSave)
      → get key storage ≡ some (readable saved)
      → (restore_saved_data key reader (storage, s)).0
        ≡ (if is_readable_by reader saved then some saved.data_of else none)
  unfolding restore_saved_data
  restore_saved_data-readable key reader saved storage s kept =
      rw (restore_saved_data, kept) (ground (arith, Bool-cases (is_readable_by reader saved)))

  is_readable_by_lem :
      (writer : String) (reader : Option String) (saved : SavedData T)
      → saved.wallet_address ≡ some writer
      → (if is_readable_by reader saved then some saved.data_of else none) ≡ elim (truthy reader) [
        | none ↦ some saved.data_of
        | some w ↦ if str_eq writer w then some saved.data_of else none
      ]
  unfolding is_readable_by
  is_readable_by_lem writer none saved e = refl
  is_readable_by_lem writer (some r) saved e = elim (Bool-cases (str_eq r "")) [
    | inl named ↦ rw (is_readable_by, named) refl
    | inr named ↦ rw (is_readable_by, named, e) refl
  ]

  -- A draft that was saved under a wallet is restored as it was to that wallet, and, when no wallet is
  -- connected, to anyone; another wallet gets nothing.
  pub restore_saved_data-auto_save :
      (trim : String → String) (now : ℕ) (key writer : String) (reader : Option String)
      (fields : List FormValue) (draft : T) (storage : Dict (Stored T)) (s : AutoSave)
      → any_by (is_filled trim) fields ≡ true
      → str_eq writer "" ≡ false
      → (restore_saved_data key reader
          (auto_save trim now true key (some writer) fields draft (storage, s))).0
        ≡ elim (truthy reader) [
          | none ↦ some draft
          | some w ↦ if str_eq writer w then some draft else none
        ]
  restore_saved_data-auto_save trim now key writer reader fields draft storage s filled named =
      let after = auto_save trim now true key (some writer) fields draft (storage, s) in
      restore_saved_data-readable key reader (draft_of now writer draft) (after.0) (after.1)
        (get-auto_save trim now key writer fields draft storage s filled named)
      ∙ is_readable_by_lem writer reader (draft_of now writer draft) refl
