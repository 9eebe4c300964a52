-- ===== src/Routes/V1/Laws.antt =====
-- backend/src/routes/v1.ts: the admin listings over a large store, and the settings over many writes.
use stellar_kraal.Common.{
  str_eq, Option-cases, length, filter_by, length-filter_by-le, Dict, get, put, get-put_self,
  get-put_ne, sort_desc, ℕ, ◌≤◌, String, ◌≡◌, refl, ap, ◌∙◌, ◌≢◌, inl, inr, false, not, none, some,
  List, [], ◌∷◌, map, arith,
}
use stellar_kraal.Http.{valid, reply}
use stellar_kraal.Store.Records.{LoanStatus, LoanRecord, Store, holds}
use stellar_kraal.Store.Paging.{given}
use stellar_kraal.Store.Pages.{length-slice-le}
use stellar_kraal.Store.Loans.{list_loans, matching_loans, no_loan_filters}
use stellar_kraal.Routes.V1.{
  admin_loans, distinct, admin_users, status_text, moderation_queue, UserSettings, SettingsInput,
  default_settings, get_settings_route, merge_settings, put_settings_route,
}

not_pending : (st : LoanStatus) → str_eq (status_text st) "pending" ≡ false
not_pending LoanStatus.active = refl
not_pending LoanStatus.at_risk = refl
not_pending LoanStatus.repaid = refl
not_pending LoanStatus.liquidated = refl

none_pending :
    (ls : List LoanRecord)
    → filter_by (λ (l : LoanRecord). holds (λ st. str_eq (status_text st) "pending") l.status) ls
      ≡ []
none_pending [] = refl
none_pending (l ∷ ls) = elim (Option-cases l.status) [
  | inl e ↦ rw e (none_pending ls)
  | inr (st, e) ↦ rw e (rw (not_pending st) (none_pending ls))
]

length-map : (f : LoanRecord → String) (ls : List LoanRecord) → length (map f ls) ≡ length ls
length-map f [] = refl
length-map f (l ∷ ls) = omega (arith, length-map f ls)

length-distinct : (xs : List String) → length (distinct xs) ≤ length xs
unfolding distinct
length-distinct [] = omega arith
length-distinct (x ∷ xs) =
    omega (arith, length-distinct xs, length-filter_by-le (λ y. not (str_eq y x)) (distinct xs))

length-admin_loans : (s : Store) → length (admin_loans s).rows ≤ 20
unfolding list_loans
length-admin_loans s =
    length-slice-le 20 0 20
      (sort_desc (λ r. r.created_at) (matching_loans (record no_loan_filters { page = some 1 }) s))
      (omega arith)

-- However many loans the store holds, the administrators see the borrowers of at most twenty of them,
-- and an empty moderation queue: no loan has the status that it filters by.
pub admin_users-moderation_queue :
    (s : Store)
    → ((admin_users s).1 ≤ 20)
      × ((admin_users s).1 ≡ length (admin_users s).0)
      × (moderation_queue s ≡ ([], 0))
unfolding admin_users moderation_queue
admin_users-moderation_queue s =
    let rows = (admin_loans s).rows in
    let borrowers = map (λ (l : LoanRecord). l.borrower) rows in
    (
      omega (
        arith,
        length-distinct borrowers,
        length-map (λ (l : LoanRecord). l.borrower) rows,
        length-admin_loans s,
      ),
      refl,
      ap (λ ls. (ls, length ls)) (none_pending rows),
    )

-- What is saved for a wallet is what it reads, at any later time and after any write for another
-- wallet; a field that a write leaves out keeps its value, and the wallet and its join date stay those
-- of the first write.
pub get_settings_route-put_settings_route :
    (t u v w : ℕ) (wallet other : String) (a b c : SettingsInput) (store : Dict UserSettings)
    → get wallet store ≡ none
    → other ≢ wallet
    → let first = merge_settings (default_settings t wallet) a in
      let store' = (put_settings_route t wallet (valid a) store).1 in
      let store'' = (put_settings_route u other (valid c) store').1 in
      let (answer, store''') = put_settings_route v wallet (valid b) store'' in
      (get_settings_route w wallet store'' ≡ reply 200 first)
      × (answer ≡ reply 200 (merge_settings first b))
      × (get_settings_route w wallet store''' ≡ reply 200 (merge_settings first b))
      × ((merge_settings first b).join_date ≡ t)
      × ((merge_settings first b).wallet_address ≡ wallet)
unfolding put_settings_route get_settings_route
get_settings_route-put_settings_route t u v w wallet other a b c store new ne =
    let first = merge_settings (default_settings t wallet) a in
    let stored = get-put_self wallet first store in
    let row =
      merge_settings (given (get other (put wallet first store)) (default_settings u other)) c in
    let kept = get-put_ne other wallet row (put wallet first store) ne ∙ stored in
    (
      ground (arith, new, kept),
      ground (arith, new, kept),
      ground (
        arith,
        new,
        kept,
        get-put_self wallet (merge_settings first b) (put other row (put wallet first store)),
      ),
      refl,
      refl,
    )
