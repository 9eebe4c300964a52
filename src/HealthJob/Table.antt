-- ===== src/HealthJob/Table.antt =====
-- backend/src/jobs/healthFactorJob.ts: a run of the job, read off the loan table.
use stellar_kraal.Common.{
  str_eq, if◌then◌else◌, str_eq_iff, str_eq_refl, str_eq_of_ne, Bool-cases, is_some, filter_by,
  any_by, All, Dict, get, values, Entries, ℕ, String, ◌≡◌, refl, sym, ap, ◌∙◌, subst, ◌≢◌, ◌↔◌, ◌⊎◌,
  inl, inr, Bool, true, false, not, ◌&&◌, none, some, List, [], ◌∷◌, arith, HasDistinctKeys,
}
use stellar_kraal.Store.Records.{LoanRecord, Store, at_risk}
use stellar_kraal.Store.Collateral.{get_collateral}
use stellar_kraal.Store.Loans.{is_open, list_active_loans, get_loan}
use stellar_kraal.Store.Calls.{Entries-get}
use stellar_kraal.Loans.Liquidate.{LiquidateInput, eligible, liquidate_check, compute_health_factor}
use stellar_kraal.HealthJob.{JobConfig, JobState, job_factor, job_status, run_health_factor_job}
use stellar_kraal.HealthJob.Effect.{
  update_all-collateral, refreshed-kept, refreshed, refreshed_status, OnlyRow, has_id,
  update_all-get, job_loop-store, ne_of_false,
}

abbrev Keyed : Dict LoanRecord → Type 0
Keyed m = Entries (λ k (r : LoanRecord). r.id ≡ k) m

absent_rows :
    (k : String) (m : Dict LoanRecord) → Keyed m → get k m ≡ none → All (λ x. x.id ≢ k) (values m)
unfolding get values
absent_rows k [] h e = tt
absent_rows k ((j, v) ∷ m) (own, h) e = elim (Bool-cases (str_eq j k)) [
  | inl same ↦ absurd (ground (arith, same, e))
  | inr other ↦
      (λ q. ne_of_false j k other (sym own ∙ q), absent_rows k m h (ground (arith, other)))
]

OnlyRow-of_absent :
    (r : LoanRecord) (xs : List LoanRecord) → All (λ x. x.id ≢ r.id) xs → OnlyRow r xs
OnlyRow-of_absent r [] h = tt
OnlyRow-of_absent r (x ∷ xs) (p, h) = (λ e. absurd (p e), OnlyRow-of_absent r xs h)

-- In a keyed table with distinct keys, `r` is the only row under its id.
only_row :
    (r : LoanRecord) (m : Dict LoanRecord)
    → Keyed m
    → HasDistinctKeys m
    → get r.id m ≡ some r
    → OnlyRow r (values m)
unfolding get values
only_row r [] h d e = tt
only_row r ((j, v) ∷ m) (own, h) (fresh, d) e = elim (Bool-cases (str_eq j r.id)) [
  | inl same ↦
      let key : j ≡ r.id = (str_eq_iff j r.id).0 same in
      (
        λ q. ground (arith, same),
        OnlyRow-of_absent r (values m)
            (absent_rows r.id m h (subst (λ k. get k m ≡ none) key fresh)),
      )
  | inr other ↦ (
    λ q. absurd (ne_of_false j r.id other (sym own ∙ q)),
    only_row r m h d (ground (arith, other)),
  )
]

OnlyRow-filter_by :
    (r : LoanRecord) (p : LoanRecord → Bool) (xs : List LoanRecord)
    → OnlyRow r xs
    → OnlyRow r (filter_by p xs)
OnlyRow-filter_by r p [] h = tt
OnlyRow-filter_by r p (x ∷ xs) (q, h) = elim (Bool-cases (p x)) [
  | inl e ↦ rw e (q, OnlyRow-filter_by r p xs h)
  | inr e ↦ rw e (OnlyRow-filter_by r p xs h)
]

no_id :
    (k : String) (p : LoanRecord → Bool) (xs : List LoanRecord)
    → All (λ x. x.id ≢ k) xs
    → any_by (has_id k) (filter_by p xs) ≡ false
no_id k p [] h = refl
no_id k p (x ∷ xs) (ne, h) = ground (arith, str_eq_of_ne x.id k ne, no_id k p xs h)

-- `r` is in the filtered table exactly if it passes the filter.
has_id-filter_by :
    (r : LoanRecord) (p : LoanRecord → Bool) (m : Dict LoanRecord)
    → Keyed m
    → HasDistinctKeys m
    → get r.id m ≡ some r
    → any_by (has_id r.id) (filter_by p (values m)) ≡ p r
unfolding get values
has_id-filter_by r p [] h d e = cc
has_id-filter_by r p ((j, v) ∷ m) (own, h) (fresh, d) e = elim (Bool-cases (str_eq j r.id)) [
  | inl same ↦
      let key : j ≡ r.id = (str_eq_iff j r.id).0 same in
      let is_r : v ≡ r = ground (arith, same) in
      let none_left =
        no_id r.id p (values m) (absent_rows r.id m h (subst (λ k. get k m ≡ none) key fresh)) in
      ground (arith, none_left, is_r, str_eq_refl r.id)
  | inr other ↦
      let ne : v.id ≢ r.id = λ q. ne_of_false j r.id other (sym own ∙ q) in
      ground (arith, str_eq_of_ne v.id r.id ne, has_id-filter_by r p m h d (ground (arith, other)))
]

-- The row of a loan after a run.
row_after_run :
    (cfg : JobConfig) (now : ℕ) (st : JobState) (k : String) (r : LoanRecord)
    → Entries (λ key (x : LoanRecord). x.id ≡ key) st.store.loans
    → HasDistinctKeys st.store.loans
    → get k st.store.loans ≡ some r
    → get k (run_health_factor_job cfg now st).2.store.loans
      ≡ some (if not (is_some r.deleted_at) && is_open r then refreshed st.store r else r)
unfolding run_health_factor_job list_active_loans
row_after_run cfg now st k r h d e =
    let own : r.id ≡ k = Entries-get (λ key (x : LoanRecord). x.id ≡ key) k r st.store.loans h e in
    let p : LoanRecord → Bool = λ x. not (is_some x.deleted_at) && is_open x in
    let m = st.store.loans in
    let row : get r.id m ≡ some r = subst (λ key. get key m ≡ some r) (sym own) e in
    let only = OnlyRow-filter_by r p (values m) (only_row r m h d row) in
    let final =
      update_all-get st.store r r (filter_by p (values m)) st.store refl row (inl refl) only in
    let at_id =
      ap (λ (s : Store). get r.id s.loans) (job_loop-store cfg now (filter_by p (values m)) st)
      ∙ final
      ∙ ap (λ b. some (if b then refreshed st.store r else r)) (has_id-filter_by r p m h d row) in
    subst
      (λ key.
        get key (run_health_factor_job cfg now st).2.store.loans
        ≡ some (if p r then refreshed st.store r else r))
      own at_id

-- In a loan table that files its rows under their own ids, each id once, a run of the health job
-- refreshes every loan that is open and not deleted, from the store at its start, and leaves every
-- other loan as it was; a refreshed loan has the status that its health factor calls for.
pub run_health_factor_job-row :
    (cfg : JobConfig) (now : ℕ) (st : JobState) (k : String) (r : LoanRecord)
    → Entries (λ key (x : LoanRecord). x.id ≡ key) st.store.loans
    → HasDistinctKeys st.store.loans
    → get k st.store.loans ≡ some r
    → (get k (run_health_factor_job cfg now st).2.store.loans
        ≡ some (if not (is_some r.deleted_at) && is_open r then refreshed st.store r else r))
      × ((refreshed st.store r).status ≡ some (job_status (job_factor st.store r)))
run_health_factor_job-row cfg now st k r h d e =
    (row_after_run cfg now st k r h d e, refreshed_status st.store r)

-- The job calls a factor at risk exactly if it makes a visible loan eligible for liquidation.
job_status-liquidate_check :
    (input : LiquidateInput) (s : Store) (loan : LoanRecord)
    → get_loan input.loan_id s ≡ some loan
    → (job_status (job_factor s loan) ≡ at_risk)
      ↔ (liquidate_check input s ≡ eligible loan (get_collateral loan.collateral_id s))
unfolding liquidate_check job_status job_factor compute_health_factor
job_status-liquidate_check input s loan e = (λ h. ground (arith, e), λ h. ground (arith, e))

get_loan-some :
    (id : String) (s : Store) (r : LoanRecord)
    → get id s.loans ≡ some r
    → is_some r.deleted_at ≡ false
    → get_loan id s ≡ some r
unfolding get_loan
get_loan-some id s r e live = ground (arith, e, live)

run-collateral :
    (cfg : JobConfig) (now : ℕ) (st : JobState)
    → (run_health_factor_job cfg now st).2.store.collateral ≡ st.store.collateral
unfolding run_health_factor_job
run-collateral cfg now st =
    ap (λ (s : Store). s.collateral) (job_loop-store cfg now (list_active_loans st.store) st)
    ∙ update_all-collateral (list_active_loans st.store) st.store

job_factor-kept :
    (s s' : Store) (r r' : LoanRecord)
    → s'.collateral ≡ s.collateral
    → (r'.amount ≡ r.amount) × (r'.collateral_id ≡ r.collateral_id)
    → job_factor s' r' ≡ job_factor s r
unfolding job_factor get_collateral
job_factor-kept s s' r r' c (a, b) = rw (c, a, b) refl

-- What a run makes of a loan that is not deleted, against the liquidation of that loan after the run: a
-- repaid or liquidated one is left as it was; any other is at risk exactly if it could be liquidated.
abbrev pub IsMarked : LiquidateInput → Store → LoanRecord → LoanRecord → Type 0
IsMarked input s r r' =
    (get_loan input.loan_id s ≡ some r')
    × (((is_open r ≡ false) × (r' ≡ r))
        ⊎ ((is_open r ≡ true)
            × ((r'.status ≡ some at_risk)
                ↔ (liquidate_check input s ≡ eligible r' (get_collateral r'.collateral_id s)))))

-- In a loan table that files its rows under their own ids, each id once, a run of the health job leaves a
-- repaid or liquidated loan that is not deleted as it was; any other loan that is not deleted has the
-- status at_risk after the run exactly if a liquidation of it would be accepted then.
pub run_health_factor_job-liquidate_check :
    (cfg : JobConfig) (now : ℕ) (st : JobState) (input : LiquidateInput) (r : LoanRecord)
    → Entries (λ key (x : LoanRecord). x.id ≡ key) st.store.loans
    → HasDistinctKeys st.store.loans
    → get input.loan_id st.store.loans ≡ some r
    → is_some r.deleted_at ≡ false
    → (r' : LoanRecord) × IsMarked input (run_health_factor_job cfg now st).2.store r r'
run_health_factor_job-liquidate_check cfg now st input r h d e live =
    let s' = (run_health_factor_job cfg now st).2.store in
    let row = row_after_run cfg now st input.loan_id r h d e in
    elim (Bool-cases (is_open r)) [
      | inr shut ↦ (
        r,
        (get_loan-some input.loan_id s' r (row ∙ rw (live, shut) refl) live, inl (shut, refl)),
      )
      | inl opened ↦
          let r' = refreshed st.store r in
          let (amount, collateral, deleted) = refreshed-kept st.store r in
          let found =
            get_loan-some input.loan_id s' r' (row ∙ rw (live, opened) refl)
              (ap is_some deleted ∙ live) in
          let factor =
            job_factor-kept st.store s' r r' (run-collateral cfg now st) (amount, collateral) in
          let status : r'.status ≡ some (job_status (job_factor s' r')) =
            refreshed_status st.store r ∙ ap (λ f. some (job_status f)) (sym factor) in
          let (there, back) = job_status-liquidate_check input s' r' found in
          (
            r',
            (
              found,
              inr (
                opened,
                (λ q. there (ground (arith, status, q)), λ q. status ∙ ap some (back q)),
              ),
            ),
          )
    ]
