-- ===== src/Loans/Create/Safety.antt =====
-- POST /api/loan/create in backend/src/index.ts: the invariant of its interleavings.
use stellar_kraal.Common.{
  str_eq, if◌then◌else◌, str_eq_iff, Bool-cases, Option-cases, is_some, any_by, get, put, values, ℕ,
  ◌+◌, ◌≤◌, String, ◌≡◌, sym, ap, ◌∙◌, inl, inr, true, false, ◌||◌, Option, none, some, List, [],
  ◌∷◌, ◌++◌, arith,
}
use stellar_kraal.Http.{User, Outcome, resolved, rejected}
use stellar_kraal.Store.Records.{LoanRecord, active}
use stellar_kraal.Store.Loans.{
  LoanUpdates, is_open, pledges, insert_loan, update_loan, soft_delete_loan, restore_loan,
  is_collateral_pledged,
}
use stellar_kraal.Store.Collateral.{get_collateral}
use stellar_kraal.Loans.Create.Counting.{
  count_by, weight, count_by-zero_of_any_by, count_by-put_new, count_by-put_old, count_by-insert,
  any_by-insert, any_by-false_of_count_by,
}
use stellar_kraal.Loans.Create.{
  CreateLoanInput, Server, Task, refused, building, set_has, set_add, set_delete, create_begin,
  create_finish,
}
use stellar_kraal.Loans.Create.System.{
  System, for_collateral, open_loans, IsMild, Step, begin, refuse, finish, delete, update, Reach,
  here, next, IsSafe,
}

set_has-set_delete :
    (c d : String) (p : List String)
    → set_has c (set_delete d p) ≡ (if str_eq d c then false else set_has c p)
set_has-set_delete c d [] = ground arith
set_has-set_delete c d (x ∷ p) =
    ground (arith, set_has-set_delete c d p, str_eq_iff x d, str_eq_iff x c, str_eq_iff d c)

set_has-set_add :
    (c d : String) (p : List String) → set_has c (set_add d p) ≡ (str_eq d c || set_has c p)
set_has-set_add c d p = ground (arith, str_eq_iff d c, set_has_of_eq c d p)
  where
    set_has_of_eq : (c d : String) (p : List String) → d ≡ c → set_has d p ≡ set_has c p
    set_has_of_eq c d p e = ap (λ x. set_has x p) e

create_begin-building :
    (input : CreateLoanInput) (user : Option User) (s s' : Server) (t : Task)
    → create_begin input user s ≡ (building t, s')
    → (set_has t.collateral_id s.pending_pledges ≡ false)
      × (is_collateral_pledged t.collateral_id s.store ≡ false)
      × (s' ≡ record s { pending_pledges = set_add t.collateral_id s.pending_pledges })
unfolding create_begin
create_begin-building input user s s' t e =
    elim (Option-cases (get_collateral input.collateral_id s.store)) [
      | inl h ↦ ground arith
      | inr (c, h) ↦ ground arith
    ]

create_begin-refused :
    (input : CreateLoanInput) (user : Option User) (s s' : Server) (code : ℕ) (why : String)
    → create_begin input user s ≡ (refused code why, s')
    → s' ≡ s
unfolding create_begin
create_begin-refused input user s s' code why e =
    elim (Option-cases (get_collateral input.collateral_id s.store)) [
      | inl h ↦ ground arith
      | inr (c, h) ↦ ground arith
    ]

begin-IsSafe :
    (s : Server) (ts : List Task) (t : Task)
    → set_has t.collateral_id s.pending_pledges ≡ false
    → is_collateral_pledged t.collateral_id s.store ≡ false
    → IsSafe (record { server = s; waiting = ts })
    → IsSafe (record {
      server = record s { pending_pledges = set_add t.collateral_id s.pending_pledges };
      waiting = t ∷ ts;
    })
unfolding is_collateral_pledged
begin-IsSafe s ts t free unpledged h = record { single = single; reserved = reserved }
  where
    single :
        (c : String)
        → count_by (pledges c) (values s.store.loans) + count_by (for_collateral c) (t ∷ ts) ≤ 1
    single c = elim (Bool-cases (str_eq t.collateral_id c)) [
      | inl e ↦
          let same : t.collateral_id ≡ c = (str_eq_iff t.collateral_id c).0 e in
          let none_open =
            count_by-zero_of_any_by (pledges c) (values s.store.loans) (rw (← same) unpledged) in
          let none_waiting = h.reserved c in
          let no_task : any_by (for_collateral c) ts ≡ false =
            sym none_waiting ∙ (rw (← same) free) in
          let zero_tasks = count_by-zero_of_any_by (for_collateral c) ts no_task in
          ground (arith, e, none_open, zero_tasks)
      | inr e ↦ ground (arith, e, h.single c)
    ]

    reserved :
        (c : String)
        → set_has c (set_add t.collateral_id s.pending_pledges) ≡ any_by (for_collateral c) (t ∷ ts)
    reserved c = set_has-set_add c t.collateral_id s.pending_pledges ∙ (rw (h.reserved c))

-- What `finish` leaves of the reservations.
finish_reserved :
    (s : Server) (before after : List Task) (t : Task)
    → IsSafe (record { server = s; waiting = before ++ t ∷ after })
    → (c : String)
    → set_has c (set_delete t.collateral_id s.pending_pledges)
      ≡ any_by (for_collateral c) (before ++ after)
finish_reserved s before after t h c = elim (Bool-cases (str_eq t.collateral_id c)) [
  | inl e ↦
      let all = count_by-insert (for_collateral c) t before after in
      let empty : count_by (for_collateral c) (before ++ after) ≡ 0 =
        ground (arith, all, e, h.single c) in
      ground (
        arith,
        e,
        set_has-set_delete c t.collateral_id s.pending_pledges,
        any_by-false_of_count_by (for_collateral c) (before ++ after) empty,
      )
  | inr e ↦ ground (
    arith,
    e,
    set_has-set_delete c t.collateral_id s.pending_pledges,
    h.reserved c,
    any_by-insert (for_collateral c) t before after,
  )
]

finish-IsSafe :
    (now : ℕ) (id : String) (o : Outcome String) (s : Server) (before after : List Task) (t : Task)
    → get id s.store.loans ≡ none
    → IsSafe (record { server = s; waiting = before ++ t ∷ after })
    → IsSafe (record { server = (create_finish now id t o s).1; waiting = before ++ after })
unfolding create_finish insert_loan
finish-IsSafe now id (rejected e) s before after t fresh h = record {
  single = λ c. omega (arith, count_by-insert (for_collateral c) t before after, h.single c);
  reserved = finish_reserved s before after t h;
}
finish-IsSafe now id (resolved xdr) s before after t fresh h = record {
  single = λ c. ground (
    arith,
    count_by-insert (for_collateral c) t before after,
    count_by-put_new (pledges c) id
        (record {
          id = id;
          borrower = t.borrower_address;
          collateral_id = t.collateral_id;
          amount = t.loan_amount;
          status = some active;
          health_factor = none;
          created_at = now;
          deleted_at = none;
        })
        s.store.loans fresh,
    h.single c,
  );
  reserved = finish_reserved s before after t h;
}

-- A row written over another that is no more open on any collateral keeps the system safe.
row-IsSafe :
    (s : Server) (ts : List Task) (id : String) (r r' : LoanRecord)
    → get id s.store.loans ≡ some r
    → ((c : String) → weight (pledges c) r' ≤ weight (pledges c) r)
    → IsSafe (record { server = s; waiting = ts })
    → IsSafe (record {
      server = record s { store = record s.store { loans = put id r' s.store.loans } };
      waiting = ts;
    })
row-IsSafe s ts id r r' e less h = record {
  single =
      λ c. omega (arith, count_by-put_old (pledges c) id r' r s.store.loans e, less c, h.single c);
  reserved = h.reserved;
}

delete-IsSafe :
    (now : ℕ) (id : String) (s : Server) (ts : List Task)
    → IsSafe (record { server = s; waiting = ts })
    → IsSafe
        (record { server = record s { store = (soft_delete_loan now id s.store).1 }; waiting = ts })
unfolding soft_delete_loan
delete-IsSafe now id s ts h = elim (Option-cases (get id s.store.loans)) [
  | inl e ↦ rw (e, soft_delete_loan) h
  | inr (r, e) ↦ elim (Bool-cases (is_some r.deleted_at)) [
    | inl d ↦ rw (e, soft_delete_loan, d) h
    | inr d ↦ rw (e, soft_delete_loan, d) (row-IsSafe s ts id r _ e (λ c. ground arith) h)
  ]
]

update-IsSafe :
    (id : String) (u : LoanUpdates) (s : Server) (ts : List Task) (r : LoanRecord)
    → get id s.store.loans ≡ some r
    → IsMild r u
    → IsSafe (record { server = s; waiting = ts })
    → IsSafe (record { server = record s { store = (update_loan id u s.store).1 }; waiting = ts })
unfolding update_loan
update-IsSafe id u s ts r e mild h =
    rw (e, update_loan) (row-IsSafe s ts id r _ e (λ c. ground (arith, mild)) h)

pub Step-IsSafe : {s t : System} → Step s t → IsSafe s → IsSafe t
Step-IsSafe (begin input user s s' t ts e) h =
    let (free, unpledged, same) = create_begin-building input user s s' t e in
    rw same (begin-IsSafe s ts t free unpledged h)
Step-IsSafe (refuse input user s s' code why ts e) h =
    rw (create_begin-refused input user s s' code why e) h
Step-IsSafe (finish now id o s before after t fresh) h =
    finish-IsSafe now id o s before after t fresh h
Step-IsSafe (delete now id s ts) h = delete-IsSafe now id s ts h
Step-IsSafe (update id u s ts r e mild) h = update-IsSafe id u s ts r e mild h

Reach-IsSafe : {s t : System} → IsSafe s → Reach s t → IsSafe t
Reach-IsSafe h here = h
Reach-IsSafe h (next r st) = Step-IsSafe st (Reach-IsSafe h r)

-- From a safe system, whatever the order in which creations begin, resume or fail, and whatever
-- deletions and mild updates fall between them, no collateral ever backs two open loans.
pub Reach-single : (s t : System) (c : String) → IsSafe s → Reach s t → open_loans c t.server ≤ 1
Reach-single s t c h r = omega (arith, (Reach-IsSafe h r).single c)

-- Restoring a deleted loan does not look at its collateral: an open loan that comes back to a
-- collateral with one open loan makes it two.
pub restore_loan-double_pledge :
    (id c : String) (s : Server) (r : LoanRecord)
    → get id s.store.loans ≡ some r
    → is_some r.deleted_at ≡ true
    → is_open r ≡ true
    → r.collateral_id ≡ c
    → open_loans c s ≡ 1
    → open_loans c (record s { store = (restore_loan id s.store).1 }) ≡ 2
unfolding restore_loan
restore_loan-double_pledge id c s r e gone open_loan on one =
    rw (e, restore_loan, gone)
      (ground (
        arith,
        count_by-put_old (pledges c) id (record r { deleted_at = none }) r s.store.loans e,
        str_eq_iff r.collateral_id c,
      ))
