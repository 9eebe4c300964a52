-- ===== src/Contract/Repay.antt =====
-- POST /api/loan/repay of backend/src/index.ts: a repayment under an idempotency key, before and after
-- the await of the transaction.
use stellar_kraal.Common.{
  str_eq, if◌then◌else◌, str_eq_of_ne, Option-cases, Dict, get, put, get-put_self, get-remove_self,
  ℕ, ◌+◌, ◌-◌, ◌≤◌, String, ◌≡◌, sym, ap, subst, ◌≢◌, Bool, true, false, Option, none, some, arith,
}
use stellar_kraal.Http.{Outcome, resolved, rejected, Validation, invalid, valid}
use stellar_kraal.Contract.{ContractCall}
use stellar_kraal.Contract.Calls.{LoanRepayInput, repay_loan_call}
use stellar_kraal.Caches.Idempotency.{
  ttl_ms, IdempotencyEntry, get_idempotency_entry, set_idempotency_entry,
}

-- The bodies that are answered; the issues of a failed validation are left out.
pub data RepayReply : Type 0 where
  key_required validation_failed : RepayReply
  built : String → RepayReply

pub record Response : Type 0 where
  pub status : ℕ
  pub body : RepayReply
  pub replayed : Bool

abbrev pub Kept : Type 0
Kept = Dict (IdempotencyEntry RepayReply)

-- A request before its await: answered, or waiting for a transaction.
pub data Step : Type 0 where
  answered : Response → Step
  waiting : String → ContractCall → Step

unfoldable pub repay_under : ℕ → String → Validation LoanRepayInput → Kept → Step × Kept
repay_under now key input cache =
    let (found, cache') = get_idempotency_entry now key cache in
    elim found [
      | some entry ↦
          (answered (record { status = entry.status; body = entry.body; replayed = true }), cache')
      | none ↦ elim input [
        | invalid ↦ (
          answered (record { status = 400; body = validation_failed; replayed = false }),
          set_idempotency_entry now key 400 validation_failed cache',
        )
        | valid i ↦ (waiting key (repay_loan_call i), cache')
      ]
    ]

unfoldable pub repay_begin : ℕ → Option String → Validation LoanRepayInput → Kept → Step × Kept
unfolding repay_under
repay_begin now none input cache =
    (answered (record { status = 400; body = key_required; replayed = false }), cache)
repay_begin now (some key) input cache =
    if str_eq key ""
    then (answered (record { status = 400; body = key_required; replayed = false }), cache)
    else repay_under now key input cache

-- After the await; a rejection goes to the error handler.
unfoldable pub repay_finish : ℕ → String → Outcome String → Kept → Outcome Response × Kept
repay_finish now key (rejected e) cache = (rejected e, cache)
repay_finish now key (resolved xdr) cache = (
  resolved (record { status = 200; body = built xdr; replayed = false }),
  set_idempotency_entry now key 200 (built xdr) cache,
)

-- One request, begun at `t` and resumed at `u`.
abbrev pub repay_resume :
    ℕ → (ContractCall → Outcome String) → Step × Kept → Outcome Response × Kept
repay_resume u build (answered r, cache) = (resolved r, cache)
repay_resume u build (waiting key call, cache) = repay_finish u key (build call) cache

abbrev pub repay_route :
    ℕ
    → ℕ
    → (ContractCall → Outcome String)
    → Option String
    → Validation LoanRepayInput
    → Kept
    → Outcome Response × Kept
repay_route t u build key input cache = repay_resume u build (repay_begin t key input cache)

abbrev pub entry_of : ℕ → Response → IdempotencyEntry RepayReply
entry_of now r = record { status = r.status; body = r.body; created_at = now }

-- A key without a live entry has none after it was looked up.
get_idempotency_entry-gone :
    (now : ℕ) (key : String) (cache : Kept)
    → (get_idempotency_entry now key cache).0 ≡ none
    → get key (get_idempotency_entry now key cache).1 ≡ none
unfolding get_idempotency_entry
get_idempotency_entry-gone now key cache e =
    ground (arith, e, get-remove_self key cache, Option-cases (get key cache))

-- A key whose entry is young gives that entry.
get_idempotency_entry-live :
    (now : ℕ) (key : String) (entry : IdempotencyEntry RepayReply) (cache : Kept)
    → get key cache ≡ some entry
    → now - entry.created_at ≤ ttl_ms
    → get_idempotency_entry now key cache ≡ (some entry, cache)
unfolding get_idempotency_entry
get_idempotency_entry-live now key entry cache e young = ground (arith, e)

get_idempotency_entry-none :
    (now : ℕ) (key : String) (cache : Kept)
    → get key cache ≡ none
    → get_idempotency_entry now key cache ≡ (none, cache)
unfolding get_idempotency_entry
get_idempotency_entry-none now key cache e = ground (arith, e)

-- What a repetition finds: the same answer, marked as a replay, if there was one, and else a new start.
abbrev pub IsRetried : ℕ → String → LoanRepayInput → Outcome Response × Kept → Type 0
IsRetried w key i (resolved r, cache') =
    repay_begin w (some key) (valid i) cache' ≡ (answered (record r { replayed = true }), cache')
IsRetried w key i (rejected e, cache') =
    (repay_begin w (some key) (valid i) cache').0 ≡ waiting key (repay_loan_call i)

repay_begin-replays :
    (now w : ℕ) (key : String) (i : LoanRepayInput) (r : Response) (cache : Kept)
    → key ≢ ""
    → w ≤ now + ttl_ms
    → repay_begin w (some key) (valid i) (set_idempotency_entry now key r.status r.body cache) ≡ (
      answered (record r { replayed = true }),
      set_idempotency_entry now key r.status r.body cache,
    )
unfolding repay_begin repay_under set_idempotency_entry
repay_begin-replays now w key i r cache named soon =
    let kept = put key (entry_of now r) cache in
    let live =
      get_idempotency_entry-live w key (entry_of now r) kept
        (get-put_self key (entry_of now r) cache) (omega arith) in
    ground (arith, str_eq_of_ne key "" named, live)

-- The step of a request whose key has no live entry.
abbrev first_step : ℕ → String → Validation LoanRepayInput → Kept → Step × Kept
first_step now key invalid cache = (
  answered (record { status = 400; body = validation_failed; replayed = false }),
  set_idempotency_entry now key 400 validation_failed cache,
)
first_step now key (valid i) cache = (waiting key (repay_loan_call i), cache)

repay_begin-first :
    (now : ℕ) (key : String) (input : Validation LoanRepayInput) (cache : Kept)
    → key ≢ ""
    → (get_idempotency_entry now key cache).0 ≡ none
    → repay_begin now (some key) input cache
      ≡ first_step now key input (get_idempotency_entry now key cache).1
unfolding repay_begin repay_under
repay_begin-first now key invalid cache named fresh =
    ground (arith, str_eq_of_ne key "" named, fresh)
repay_begin-first now key (valid i) cache named fresh =
    ground (arith, str_eq_of_ne key "" named, fresh)

repay_finish-IsRetried :
    (u w : ℕ) (key : String) (i : LoanRepayInput) (o : Outcome String) (cache : Kept)
    → key ≢ ""
    → get key cache ≡ none
    → w ≤ u + ttl_ms
    → IsRetried w key i (repay_finish u key o cache)
unfolding repay_finish
repay_finish-IsRetried u w key i (resolved xdr) cache named gone soon =
    repay_begin-replays u w key i (record { status = 200; body = built xdr; replayed = false })
      cache named soon
repay_finish-IsRetried u w key i (rejected why) cache named gone soon =
    let none_yet = get_idempotency_entry-none w key cache gone in
    ap (λ (s : Step × Kept). s.0)
      (repay_begin-first w key (valid i) cache named
        (ap (λ (x : Option (IdempotencyEntry RepayReply) × Kept). x.0) none_yet))

-- The first request under a key may be repeated for 24 hours: if it was answered, with a transaction or
-- with 400, a repetition gets the same status and body, and builds no transaction and changes no
-- entry, whatever it asks for; if its transaction could not be built, a repetition starts anew.
pub repay_route-IsRetried :
    (t u w : ℕ) (build : ContractCall → Outcome String) (key : String)
    (input : Validation LoanRepayInput) (i : LoanRepayInput) (cache : Kept)
    → key ≢ ""
    → (get_idempotency_entry t key cache).0 ≡ none
    → t ≤ u
    → w ≤ t + ttl_ms
    → IsRetried w key i (repay_route t u build (some key) input cache)
repay_route-IsRetried t u w build key input i cache named fresh later soon =
    subst (λ (s : Step × Kept). IsRetried w key i (repay_resume u build s))
      (sym (repay_begin-first t key input cache named fresh)) (resumed input)
  where
    kept : Kept
    kept = (get_idempotency_entry t key cache).1

    resumed :
        (input : Validation LoanRepayInput)
        → IsRetried w key i (repay_resume u build (first_step t key input kept))
    resumed invalid =
        repay_begin-replays t w key i
          (record { status = 400; body = validation_failed; replayed = false }) kept named soon
    resumed (valid j) =
        repay_finish-IsRetried u w key i (build (repay_loan_call j)) kept named
          (get_idempotency_entry-gone t key cache fresh) (omega arith)
