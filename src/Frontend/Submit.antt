-- ===== src/Frontend/Submit.antt =====
-- frontend/src/lib/stellarUtils.ts: the polling of submitSignedXdr, and the colour of a health factor
-- there and in frontend/src/lib/design-tokens.ts.
use stellar_kraal.Common.{
  ltb, leb, ◌==◌, if◌then◌else◌, Bool-cases, ℕ, zero, suc, ◌+◌, ◌≤◌, String, ◌≡◌, refl, ◌⊎◌, inl,
  inr, Bool, true, false, not, ◌&&◌, ◌||◌, Option, none, some, arith,
}

-- `status` of `getTransaction`; a poll that throws ends the function.
pub data TxStatus : Type 0 where
  not_found success failed : TxStatus

abbrev pub is_not_found : TxStatus → Bool
is_not_found not_found = true
is_not_found _ = false

abbrev pub is_success : TxStatus → Bool
is_success success = true
is_success _ = false

abbrev pub max_attempts : ℕ
max_attempts = 20

-- How the loop ended: the last status, and the number of waits.
pub record Polled : Type 0 where
  pub status : TxStatus
  pub attempts : ℕ

-- The `while`; `server n` is what the call after `n` waits gives, and `left` is `20 - attempts`.
unfoldable pub poll_from : ℕ → ℕ → (ℕ → TxStatus) → Polled
poll_from zero attempts server = record { status = server attempts; attempts = attempts }
poll_from (suc left) attempts server =
    let rest = poll_from left (suc attempts) server in
    if is_not_found (server attempts)
    then rest
    else record { status = server attempts; attempts = attempts }

pub data Submitted : Type 0 where
  done : String → Submitted
  transaction_failed : Submitted
  transaction_status : TxStatus → Submitted

-- `sent` is the hash that `sendTransaction` gives, or `none` for the status `ERROR`.
unfoldable pub submit_signed_xdr : Option String → (ℕ → TxStatus) → Submitted
unfolding poll_from
submit_signed_xdr none server = transaction_failed
submit_signed_xdr (some hash) server =
    let p = poll_from max_attempts 0 server in
    elim p.status [ success ↦ done hash | st ↦ transaction_status st ]

unfoldable pub health_color : ℕ → String
health_color bps =
    if leb 15000 bps then "#16a34a" else if leb 10000 bps then "#ca8a04" else "#dc2626"

abbrev pub is_done : Submitted → Bool
is_done (done hash) = true
is_done _ = false

status_cases : (st : TxStatus) → (st ≡ not_found) ⊎ (st ≡ success) ⊎ (st ≡ failed)
status_cases not_found = inl refl
status_cases success = inr (inl refl)
status_cases failed = inr (inr refl)

poll_from_bounds :
    (left attempts n : ℕ) (server : ℕ → TxStatus)
    → let p = poll_from left attempts server in
      (attempts ≤ p.attempts)
      × (p.attempts ≤ attempts + left)
      × (p.status ≡ server p.attempts)
      × (not (is_not_found p.status) || (p.attempts == attempts + left) ≡ true)
      × (leb attempts n && ltb n p.attempts && not (is_not_found (server n)) ≡ false)
unfolding poll_from
poll_from_bounds zero attempts n server =
    (omega arith, omega arith, refl, ground arith, ground arith)
poll_from_bounds (suc left) attempts n server =
    let (lo, hi, at, ended, before) = poll_from_bounds left (suc attempts) n server in
    elim (Bool-cases (is_not_found (server attempts))) [
      | inl wait ↦ (
        ground (arith, wait, lo),
        ground (arith, wait, hi),
        ground (arith, wait, at),
        ground (arith, wait, ended),
        ground (arith, wait, before),
      )
      | inr answer ↦ (
        ground (arith, answer),
        ground (arith, answer),
        ground (arith, answer),
        ground (arith, answer),
        ground (arith, answer),
      )
    ]

-- The polling ends: after at most twenty waits, and before that only on a status other than
-- `NOT_FOUND`, which is then the first such status of the server. A hash is given back exactly if that
-- status is `SUCCESS`.
pub submit_signed_xdr-polls :
    (hash : String) (n : ℕ) (server : ℕ → TxStatus)
    → let p = poll_from max_attempts 0 server in
      (p.attempts ≤ max_attempts)
      × (p.status ≡ server p.attempts)
      × (not (is_not_found p.status) || (p.attempts == max_attempts) ≡ true)
      × (ltb n p.attempts && not (is_not_found (server n)) ≡ false)
      × (is_done (submit_signed_xdr (some hash) server) ≡ is_success p.status)
unfolding submit_signed_xdr
submit_signed_xdr-polls hash n server =
    let (_, hi, at, ended, before) = poll_from_bounds max_attempts 0 n server in
    (
      hi,
      at,
      ended,
      ground (arith, before),
      ground (arith, status_cases (poll_from max_attempts 0 server).status),
    )
