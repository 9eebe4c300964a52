-- ===== src/Loans/Create/System.antt =====
-- The loan creations of POST /api/loan/create interleaved with one another and with what else the
-- server writes to its loans.
use stellar_kraal.Common.{
  str_eq, any_by, get, values, ℕ, ◌+◌, ◌≤◌, String, ◌≡◌, Bool, true, Option, none, some, List, ◌∷◌,
  ◌++◌,
}
use stellar_kraal.Http.{User, Outcome}
use stellar_kraal.Store.Records.{LoanRecord}
use stellar_kraal.Store.Loans.{
  LoanUpdates, merge_loan, is_open, pledges, update_loan, soft_delete_loan,
}
use stellar_kraal.Loans.Create.Counting.{count_by}
use stellar_kraal.Loans.Create.{
  CreateLoanInput, Server, Task, refused, building, set_has, create_begin, create_finish,
}

-- The server, and the creations that wait for their transaction.
pub record System : Type 0 where
  pub server : Server
  pub waiting : List Task

abbrev pub for_collateral : String → Task → Bool
for_collateral c t = str_eq t.collateral_id c

-- The open loans on a collateral, and the creations under way on it.
abbrev pub open_loans : String → Server → ℕ
open_loans c s = count_by (pledges c) (values s.store.loans)

abbrev pub creations : String → List Task → ℕ
creations c ts = count_by (for_collateral c) ts

-- An update that opens no loan and moves none to another collateral: what a repayment, a
-- liquidation and the health job write.
abbrev pub IsMild : LoanRecord → LoanUpdates → Type 0
IsMild r u =
    (u.collateral_id ≡ none)
    × (u.deleted_at ≡ none)
    × (is_open (merge_loan r u) ≡ true → is_open r ≡ true)

-- One turn of the event loop. A creation may resume in any order; its new id is fresh.
pub data Step : System → System → Type 0 where
  begin :
      (input : CreateLoanInput) (user : Option User) (s s' : Server) (t : Task) (ts : List Task)
      → create_begin input user s ≡ (building t, s')
      → Step (record { server = s; waiting = ts }) (record { server = s'; waiting = t ∷ ts })
  refuse :
      (input : CreateLoanInput) (user : Option User) (s s' : Server) (code : ℕ) (why : String)
      (ts : List Task)
      → create_begin input user s ≡ (refused code why, s')
      → Step (record { server = s; waiting = ts }) (record { server = s'; waiting = ts })
  finish :
      (now : ℕ) (id : String) (o : Outcome String) (s : Server) (before after : List Task)
      (t : Task)
      → get id s.store.loans ≡ none
      → Step
          (record { server = s; waiting = before ++ t ∷ after })
          (record { server = (create_finish now id t o s).1; waiting = before ++ after })
  delete :
      (now : ℕ) (id : String) (s : Server) (ts : List Task)
      → Step
          (record { server = s; waiting = ts })
          (record {
            server = record s { store = (soft_delete_loan now id s.store).1 };
            waiting = ts;
          })
  update :
      (id : String) (u : LoanUpdates) (s : Server) (ts : List Task) (r : LoanRecord)
      → get id s.store.loans ≡ some r
      → IsMild r u
      → Step
          (record { server = s; waiting = ts })
          (record { server = record s { store = (update_loan id u s.store).1 }; waiting = ts })

pub data Reach (s : System) : System → Type 0 where
  here : Reach s s
  next : {t u : System} → Reach s t → Step t u → Reach s u

-- A collateral backs one open loan or one creation at most, and the reservations are those of the
-- creations under way.
pub record IsSafe (s : System) : Type 0 where
  pub single : (c : String) → open_loans c s.server + creations c s.waiting ≤ 1
  pub reserved :
      (c : String) → set_has c s.server.pending_pledges ≡ any_by (for_collateral c) s.waiting
