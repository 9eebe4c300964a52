-- ===== src/Loans/Create.antt =====
-- POST /api/loan/create in backend/src/index.ts. The handler stops once, at the await of
-- `buildContractTx`, and other requests run meanwhile: so it is two functions, before and after.
pub mod Counting
pub mod System
pub mod Safety
use stellar_kraal.Common.{
  ◌<>◌, str_eq, if◌then◌else◌, filter_by, any_by, get, put, ℕ, zero, suc, ◌*◌, ◌/◌, ◌<◌, min, max,
  String, ap, Bool, not, ◌||◌, Option, none, some, List, ◌∷◌,
}
use stellar_kraal.Http.{User, key_of, Outcome, resolved, rejected, Reply, reply, refuse, throws}
use stellar_kraal.Store.Records.{CollateralRecord, LoanRecord, Store}
use stellar_kraal.Store.Paging.{given}
use stellar_kraal.Store.Collateral.{get_collateral}
use stellar_kraal.Store.Loans.{insert_loan, is_collateral_pledged}

-- `validation.data` of `createLoanSchema`.
pub record CreateLoanInput : Type 0 where
  pub borrower_address : String
  pub collateral_id : String
  pub requested_amount : ℕ

-- The tables, and `pendingPledges`.
pub record Server : Type 0 where
  pub store : Store
  pub pending_pledges : List String

-- What a request keeps across the await.
pub record Task : Type 0 where
  pub borrower_address : String
  pub collateral_id : String
  pub loan_amount : ℕ

pub data Begun : Type 0 where
  refused : ℕ → String → Begun
  building : Task → Begun

-- `Math.floor(appraised_value * 0.8)`
abbrev pub max_loan_amount : CollateralRecord → ℕ
max_loan_amount c = (c.appraised_value * 8) / 10

-- `pendingPledges.has`, `.add`, `.delete`
abbrev pub set_has : String → List String → Bool
set_has c p = any_by (λ x. str_eq x c) p

abbrev pub set_add : String → List String → List String
set_add c p = if set_has c p then p else c ∷ p

abbrev pub set_delete : String → List String → List String
set_delete c p = filter_by (λ x. not (str_eq x c)) p

-- Up to the await: the checks, and the reservation.
unfoldable pub create_begin : CreateLoanInput → Option User → Server → Begun × Server
create_begin input user s = elim (get_collateral input.collateral_id s.store) [
  | none ↦ (refused 404 "Collateral not found", s)
  | some c ↦
      if not (str_eq c.owner (given (key_of user) input.borrower_address))
      then (
        refused 400
            ("Collateral " <> input.collateral_id <> " does not belong to authenticated user"),
        s,
      )
      else if set_has input.collateral_id s.pending_pledges
          || is_collateral_pledged input.collateral_id s.store
      then (
        refused 409
            ("Collateral " <> input.collateral_id <> " is already pledged to another active loan"),
        s,
      )
      else (
        building (record {
          borrower_address = input.borrower_address;
          collateral_id = input.collateral_id;
          loan_amount = min input.requested_amount (max_loan_amount c);
        }),
        record s { pending_pledges = set_add input.collateral_id s.pending_pledges },
      )
]

pub record Created : Type 0 where
  pub loan : LoanRecord
  pub xdr : String

-- After the await: the loan is stored if the transaction was built; `finally` frees the collateral.
unfoldable pub create_finish : ℕ → String → Task → Outcome String → Server → Reply Created × Server
create_finish now id t (resolved xdr) s =
    let (loan, store) =
      insert_loan now
        (record {
          id = id;
          borrower = t.borrower_address;
          collateral_id = t.collateral_id;
          amount = t.loan_amount;
          status = none;
          health_factor = none;
        })
        s.store in
    (
      reply 201 (record { loan = loan; xdr = xdr }),
      record { store = store; pending_pledges = set_delete t.collateral_id s.pending_pledges },
    )
create_finish now id t (rejected e) s =
    (throws e, record s { pending_pledges = set_delete t.collateral_id s.pending_pledges })
