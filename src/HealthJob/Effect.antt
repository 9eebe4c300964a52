-- ===== src/HealthJob/Effect.antt =====
-- backend/src/jobs/healthFactorJob.ts: the loop of a run as an update of the loan table.
use stellar_kraal.Common.{
  str_eq, if◌then◌else◌, str_eq_iff, Bool-cases, Option-cases, any_by, All, get, get-put_self,
  get-put_ne, ℕ, String, ◌≡◌, refl, sym, ap, ◌∙◌, subst, ◌≢◌, ◌⊎◌, inl, inr, Bool, true, false,
  Option, none, some, List, [], ◌∷◌, arith,
}
use stellar_kraal.Store.Records.{LoanRecord, LoanStatus, Store, same_loan_status, holds}
use stellar_kraal.Store.Collateral.{get_collateral}
use stellar_kraal.Store.Loans.{update_loan}
use stellar_kraal.HealthJob.{
  JobConfig, JobState, job_factor, job_status, needs_update, maybe_alert, job_alert, job_update,
  job_loop,
}

-- A loan as the job leaves it.
abbrev pub refreshed : Store → LoanRecord → LoanRecord
refreshed s r =
    let hf = job_factor s r in
    let st = job_status hf in
    if needs_update r hf st then record r { health_factor = hf; status = some st } else r

-- The loop without its alerts.
pub update_all : List LoanRecord → Store → Store
update_all [] s = s
update_all (x ∷ xs) s = update_all xs (job_update x s).1

job_alert-store :
    (cfg : JobConfig) (now : ℕ) (id : String) (x : LoanRecord) (s : Store) (st : JobState)
    → (job_alert cfg now id (job_factor s x) st).1.store ≡ st.store
unfolding job_alert maybe_alert
job_alert-store cfg now id x s st = ground arith

pub job_loop-store :
    (cfg : JobConfig) (now : ℕ) (xs : List LoanRecord) (st : JobState)
    → (job_loop cfg now xs st).2.store ≡ update_all xs st.store
unfolding job_loop update_all
job_loop-store cfg now [] st = refl
job_loop-store cfg now (x ∷ xs) st =
    job_loop-store cfg now xs _
    ∙ ap (update_all xs)
        (job_alert-store cfg now x.id x st.store (record st { store = (job_update x st.store).1 }))

job_update-collateral : (x : LoanRecord) (s : Store) → (job_update x s).1.collateral ≡ s.collateral
unfolding job_update update_loan
job_update-collateral x s = ground arith

-- One round, seen at its own key, where the row is the snapshot `r` or what the job makes of it.
job_update_self :
    (r r' : LoanRecord) (s : Store)
    → get r.id s.loans ≡ some r'
    → (r' ≡ r) ⊎ (r' ≡ refreshed s r)
    → get r.id (job_update r s).1.loans ≡ some (refreshed s r)
unfolding job_update update_loan
job_update_self r r' s e old =
    let hf = job_factor s r in
    let merged : LoanRecord = record r' { health_factor = hf; status = some (job_status hf) } in
    ground (arith, get-put_self r.id merged s.loans)

job_update-other :
    (k : String) (x : LoanRecord) (s : Store)
    → x.id ≢ k
    → get k (job_update x s).1.loans ≡ get k s.loans
unfolding job_update update_loan
job_update-other k x s ne = elim (Option-cases (get x.id s.loans)) [
  | inl e ↦ ground arith
  | inr (r, e) ↦
      let hf = job_factor s x in
      let merged : LoanRecord = record r { health_factor = hf; status = some (job_status hf) } in
      ground (arith, get-put_ne x.id k merged s.loans ne)
]

job_factor-eq :
    (s s0 : Store) (r : LoanRecord)
    → s.collateral ≡ s0.collateral
    → job_factor s r ≡ job_factor s0 r
unfolding job_factor get_collateral
job_factor-eq s s0 r e = cc

refreshed-eq :
    (s s0 : Store) (r : LoanRecord) → s.collateral ≡ s0.collateral → refreshed s r ≡ refreshed s0 r
refreshed-eq s s0 r e = rw (job_factor-eq s s0 r e)

-- A run changes no collateral.
pub update_all-collateral :
    (xs : List LoanRecord) (s : Store) → (update_all xs s).collateral ≡ s.collateral
unfolding update_all
update_all-collateral [] s = refl
update_all-collateral (x ∷ xs) s =
    update_all-collateral xs (job_update x s).1 ∙ job_update-collateral x s

-- A refreshed loan has the same amount, collateral and mark of deletion.
pub refreshed-kept :
    (s : Store) (r : LoanRecord)
    → ((refreshed s r).amount ≡ r.amount)
      × ((refreshed s r).collateral_id ≡ r.collateral_id)
      × ((refreshed s r).deleted_at ≡ r.deleted_at)
refreshed-kept s r =
    elim (Bool-cases (needs_update r (job_factor s r) (job_status (job_factor s r)))) [
      | inl e ↦ rw e (refl, refl, refl)
      | inr e ↦ rw e (refl, refl, refl)
    ]

if_same {ℓ} : {A : Type ℓ} (b : Bool) (x : A) → (if b then x else x) ≡ x
if_same true x = refl
if_same false x = refl

pub ne_of_false : (a b : String) → str_eq a b ≡ false → a ≢ b
ne_of_false a b h e = ground (arith, str_eq_iff a b)

-- The rows of a snapshot under the id of `r` are `r` itself.
abbrev pub OnlyRow : LoanRecord → List LoanRecord → Type 0
OnlyRow r xs = All (λ x. x.id ≡ r.id → x ≡ r) xs

abbrev pub has_id : String → LoanRecord → Bool
has_id k x = str_eq x.id k

pub update_all-get :
    (s0 : Store) (r r' : LoanRecord) (xs : List LoanRecord) (s : Store)
    → s.collateral ≡ s0.collateral
    → get r.id s.loans ≡ some r'
    → (r' ≡ r) ⊎ (r' ≡ refreshed s0 r)
    → OnlyRow r xs
    → get r.id (update_all xs s).loans
      ≡ some (if any_by (has_id r.id) xs then refreshed s0 r else r')
unfolding update_all
update_all-get s0 r r' [] s c e old h = e
update_all-get s0 r r' (x ∷ xs) s c e old (only, h) = elim (Bool-cases (str_eq x.id r.id)) [
  | inl same ↦
      let is_r : x ≡ r = only ((str_eq_iff x.id r.id).0 same) in
      let mine =
        job_update_self r r' s e
          (subst (λ q. (r' ≡ r) ⊎ (r' ≡ q)) (sym (refreshed-eq s s0 r c)) old) in
      let here : get r.id (job_update x s).1.loans ≡ some (refreshed s0 r) =
        ap (λ (q : LoanRecord). get r.id (job_update q s).1.loans) is_r
        ∙ mine
        ∙ ap some (refreshed-eq s s0 r c) in
      let rest =
        update_all-get s0 r (refreshed s0 r) xs (job_update x s).1 (job_update-collateral x s ∙ c)
          here (inr refl) h in
      rest ∙ ap some (rw same (if_same (any_by (has_id r.id) xs) (refreshed s0 r)))
  | inr other ↦
      let kept = job_update-other r.id x s (ne_of_false x.id r.id other) in
      rw other (
        update_all-get s0 r r' xs (job_update x s).1 (job_update-collateral x s ∙ c) (kept ∙ e) old
          h)
]

same_loan_status-eq : (a b : LoanStatus) → same_loan_status a b ≡ true → a ≡ b
same_loan_status-eq a b e = ground arith

holds_same :
    (st : LoanStatus) (o : Option LoanStatus) → holds (same_loan_status st) o ≡ true → o ≡ some st
holds_same st none e = ground arith
holds_same st (some x) e = ap some (sym (same_loan_status-eq st x e))

-- A refreshed loan has the status that its health factor calls for.
pub refreshed_status :
    (s : Store) (r : LoanRecord) → (refreshed s r).status ≡ some (job_status (job_factor s r))
unfolding needs_update
refreshed_status s r =
    let hf = job_factor s r in
    elim (Bool-cases (needs_update r hf (job_status hf))) [
      | inl e ↦ rw e refl
      | inr e ↦ rw e (holds_same (job_status hf) r.status (ground arith))
    ]
