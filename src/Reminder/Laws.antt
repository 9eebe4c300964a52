-- ===== src/Reminder/Laws.antt =====
-- backend/src/jobs/repaymentReminderJob.ts: the runs of one day.
use stellar_kraal.Common.{
  str_eq, str_eq_iff, str_eq_refl, length, filter_by, get-put, get-put_self, ℕ, ◌+◌, String, ◌≡◌,
  inl, inr, Bool, true, false, Option, List, [], ◌∷◌, ◌++◌, arith,
}
use stellar_kraal.Http.{resolved, Outcome, Outcome-cases}
use stellar_kraal.Reminder.{
  is_endangered, run_repayment_reminder_job, LoanSummary, Reminders, send_reminder_email,
  already_sent_today, mark_reminder_sent, remind, remind_all,
}

abbrev pub Transport : Type 0
Transport = Option (LoanSummary → Outcome (Unit {0}))

-- How often a loan was mailed.
abbrev pub times_mailed : String → List String → ℕ
times_mailed id ids = length (filter_by (λ x. str_eq x id) ids)

abbrev pub as_number : Bool → ℕ
as_number true = 1
as_number false = 0

-- What a day's mails and dates have to do with each other, for one loan.
abbrev pub IsDated : String → String → Reminders → Type 0
IsDated today id r = times_mailed id r.mailed ≡ as_number (already_sent_today id today r)

module _ (today : String) (transport : Transport) where
  remind-IsDated :
      (loan : LoanSummary) (id : String) (acc : ℕ × Reminders)
      → IsDated today id acc.1
      → IsDated today id (remind today transport loan acc).1
  unfolding remind already_sent_today mark_reminder_sent
  remind-IsDated loan id (n, r) h = elim (Outcome-cases (send_reminder_email transport loan)) [
    | inr (why, e) ↦ ground (arith, e)
    | inl (u, e) ↦ ground (
      arith,
      e,
      h,
      get-put loan.id id today r.last_reminder_date,
      str_eq_iff loan.id id,
      str_eq_refl today,
    )
  ]

  remind_all-IsDated :
      (loans : List LoanSummary) (id : String) (acc : ℕ × Reminders)
      → IsDated today id acc.1
      → IsDated today id (remind_all today transport loans acc).1
  unfolding remind_all
  remind_all-IsDated [] id acc h = h
  remind_all-IsDated (loan ∷ loans) id acc h =
      remind_all-IsDated loans id (remind today transport loan acc) (remind-IsDated loan id acc h)

  -- The count of the mails of a run.
  remind_all_count :
      (loans : List LoanSummary) (n : ℕ) (r : Reminders)
      → let (n', r') = remind_all today transport loans (n, r) in
        n' + length r.mailed ≡ n + length r'.mailed
  unfolding remind_all remind mark_reminder_sent
  remind_all_count [] n r = omega arith
  remind_all_count (loan ∷ loans) n r =
      let (n1, r1) = remind today transport loan (n, r) in
      let rest = remind_all_count loans n1 r1 in
      ground (arith, rest, Outcome-cases (send_reminder_email transport loan))

  -- A reminder that is dated today stays so.
  remind_all_stays :
      (loans : List LoanSummary) (id : String) (acc : ℕ × Reminders)
      → already_sent_today id today acc.1 ≡ true
      → already_sent_today id today (remind_all today transport loans acc).1 ≡ true
  unfolding remind_all remind already_sent_today mark_reminder_sent
  remind_all_stays [] id acc h = h
  remind_all_stays (loan ∷ loans) id (n, r) h =
      remind_all_stays loans id (remind today transport loan (n, r))
        (elim (Outcome-cases (send_reminder_email transport loan)) [
          | inr (why, e) ↦ ground (arith, e, h)
          | inl (u, e) ↦
              ground (arith, e, h, get-put loan.id id today r.last_reminder_date, str_eq_refl today)
        ])

  remind_marks :
      (loan : LoanSummary) (n : ℕ) (r : Reminders)
      → is_endangered loan ≡ true
      → send_reminder_email transport loan ≡ resolved tt
      → already_sent_today loan.id today (remind today transport loan (n, r)).1 ≡ true
  unfolding remind already_sent_today mark_reminder_sent
  remind_marks loan n r due ok =
      ground (arith, due, ok, get-put_self loan.id today r.last_reminder_date, str_eq_refl today)

  -- A run goes through the whole list: a loan that is endangered and whose mail goes out has had its
  -- reminder of the day when the run ends, whatever becomes of the mails of the others; and the number
  -- that the run returns is the number of mails that it sent.
  pub run_repayment_reminder_job-reminds :
      (xs ys : List LoanSummary) (loan : LoanSummary) (r : Reminders)
      → is_endangered loan ≡ true
      → send_reminder_email transport loan ≡ resolved tt
      → let (sent, r') = run_repayment_reminder_job today transport (xs ++ loan ∷ ys) r in
        (already_sent_today loan.id today r' ≡ true) × (sent + length r.mailed ≡ length r'.mailed)
  unfolding run_repayment_reminder_job
  run_repayment_reminder_job-reminds xs ys loan r due ok =
      (reaches xs ys loan (0, r) due ok, omega (arith, remind_all_count (xs ++ loan ∷ ys) 0 r))
    where
      reaches :
          (xs ys : List LoanSummary) (loan : LoanSummary) (acc : ℕ × Reminders)
          → is_endangered loan ≡ true
          → send_reminder_email transport loan ≡ resolved tt
          → already_sent_today loan.id today (remind_all today transport (xs ++ loan ∷ ys) acc).1
            ≡ true
      reaches [] ys loan (n, r) due ok =
          remind_all_stays ys loan.id (remind today transport loan (n, r))
            (remind_marks loan n r due ok)
      reaches (x ∷ xs) ys loan acc due ok = reaches xs ys loan (remind today transport x acc) due ok

-- The runs of one day, each with its transport and its loans.
abbrev pub run_day : String → List (Transport × List LoanSummary) → Reminders → Reminders
run_day today [] r = r
run_day today ((transport, loans) ∷ runs) r =
    run_day today runs (run_repayment_reminder_job today transport loans r).1

-- However often the job runs on a day, and whatever the mail transport does, a loan that had no
-- reminder before is mailed once if it is marked at the end of the day, and not at all otherwise.
pub run_repayment_reminder_job-once :
    (today id : String) (runs : List (Transport × List LoanSummary)) (r : Reminders)
    → r.mailed ≡ []
    → already_sent_today id today r ≡ false
    → let r' = run_day today runs r in
      times_mailed id r'.mailed ≡ as_number (already_sent_today id today r')
unfolding run_repayment_reminder_job
run_repayment_reminder_job-once today id runs r none_yet fresh =
    all_runs runs r (rw (none_yet, fresh))
  where
    all_runs :
        (runs : List (Transport × List LoanSummary)) (r : Reminders)
        → IsDated today id r
        → IsDated today id (run_day today runs r)
    all_runs [] r h = h
    all_runs ((transport, loans) ∷ runs) r h =
        all_runs runs _ (remind_all-IsDated today transport loans id (0, r) h)
