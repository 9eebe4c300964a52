-- ===== src/Reminder.antt =====
-- backend/src/jobs/repaymentReminderJob.ts: one run of the job. What the mail transport does is a
-- function of the loan. A calendar day is its text, `YYYY-MM-DD`.
pub mod Laws
use stellar_kraal.Common.{
  ltb, str_eq, if◌then◌else◌, Dict, get, put, ℕ, zero, suc, ◌+◌, min, String, Bool, false, not,
  ◌&&◌, ◌||◌, Option, none, some, List, [], ◌∷◌,
}
use stellar_kraal.Http.{Outcome, resolved, rejected}

abbrev pub reminder_threshold : ℕ
reminder_threshold = 13000

pub record LoanSummary : Type 0 where
  pub id : String
  pub borrower : String
  pub health_factor : Option ℕ
  pub amount : ℕ
  pub status : String

-- `lastReminderDate`, and the loans that were mailed, latest first.
pub record Reminders : Type 0 where
  pub last_reminder_date : Dict String
  pub mailed : List String

-- Without a transport the mail is only logged.
unfoldable pub send_reminder_email :
    Option (LoanSummary → Outcome (Unit {0})) → LoanSummary → Outcome (Unit {0})
send_reminder_email none loan = resolved tt
send_reminder_email (some send) loan = send loan

unfoldable pub already_sent_today : String → String → Reminders → Bool
already_sent_today id today r = elim (get id r.last_reminder_date) [
  | none ↦ false
  | some day ↦ str_eq day today
]

unfoldable pub mark_reminder_sent : String → String → Reminders → Reminders
mark_reminder_sent id today r = record r { last_reminder_date = put id today r.last_reminder_date }

-- The first three `continue`s of the loop.
unfoldable pub is_endangered : LoanSummary → Bool
is_endangered loan =
    (str_eq loan.status "active" || str_eq loan.status "at_risk")
    && elim loan.health_factor [ none ↦ false | some hf ↦ ltb hf reminder_threshold ]

-- One round of the loop, with the `sent++`.
unfoldable pub remind :
    String → Option (LoanSummary → Outcome (Unit {0})) → LoanSummary → ℕ × Reminders → ℕ × Reminders
unfolding is_endangered already_sent_today send_reminder_email mark_reminder_sent
remind today transport loan (sent, r) =
    if not (is_endangered loan)
    then (sent, r)
    else if already_sent_today loan.id today r
    then (sent, r)
    else elim (send_reminder_email transport loan) [
      | rejected why ↦ (sent, r)
      | resolved _ ↦
          (sent + 1, mark_reminder_sent loan.id today (record r { mailed = loan.id ∷ r.mailed }))
    ]

unfoldable pub remind_all :
    String
    → Option (LoanSummary → Outcome (Unit {0}))
    → List LoanSummary
    → ℕ × Reminders
    → ℕ × Reminders
unfolding remind
remind_all today transport [] acc = acc
remind_all today transport (loan ∷ loans) acc =
    remind_all today transport loans (remind today transport loan acc)

unfoldable pub run_repayment_reminder_job :
    String
    → Option (LoanSummary → Outcome (Unit {0}))
    → List LoanSummary
    → Reminders
    → ℕ × Reminders
unfolding remind_all
run_repayment_reminder_job today transport loans r = remind_all today transport loans (0, r)
