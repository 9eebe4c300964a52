-- ===== src/Webhooks/Laws.antt =====
-- backend/src/webhooks.ts: the attempts of a delivery and its log.
use stellar_kraal.Common.{
  ltb, if◌then◌else◌, Bool-cases, length, ℕ, zero, suc, ◌+◌, ◌≤◌, String, ◌≡◌, refl, ◌∙◌, subst,
  ◌⊎◌, inl, inr, true, false, none, some, List, arith,
}
use stellar_kraal.Http.{Outcome, resolved, rejected}
use stellar_kraal.Webhooks.{
  DeliveryLog, max_attempts, is_delivered, log_attempt, deliver_from, new_log, deliver,
}

log_attempt-attempts :
    (show : ℕ → String) (now attempt : ℕ) (o : Outcome ℕ) (log : DeliveryLog)
    → (log_attempt show now attempt o log).attempts ≡ suc attempt
unfolding log_attempt
log_attempt-attempts show now attempt (resolved st) log = ground arith
log_attempt-attempts show now attempt (rejected e) log = refl

log_attempt-delivered :
    (show : ℕ → String) (now attempt : ℕ) (o : Outcome ℕ) (log : DeliveryLog)
    → log.delivered_at ≡ none
    → (log_attempt show now attempt o log).delivered_at
      ≡ (if is_delivered o then some now else none)
unfolding log_attempt
log_attempt-delivered show now attempt (resolved st) log h = ground arith
log_attempt-delivered show now attempt (rejected e) log h = h

-- The attempts from one on have failed, as many as the number says.
abbrev pub HaveFailed : (ℕ → Outcome ℕ) → ℕ → ℕ → Type 0
HaveFailed fetch zero attempt = Unit
HaveFailed fetch (suc n) attempt =
    (is_delivered (fetch attempt) ≡ false) × HaveFailed fetch n (suc attempt)

-- What holds of the end of a delivery that has come to an attempt, with as many rounds left.
abbrev IsDone : ℕ → ℕ → (ℕ → Outcome ℕ) → (ℕ → ℕ) → DeliveryLog × List ℕ → Type 0
IsDone left attempt fetch clock (log, delays) =
    (log.attempts ≡ suc (attempt + length delays))
    × (log.attempts ≤ max_attempts)
    × (((log.attempts ≡ max_attempts) × (log.delivered_at ≡ none) × HaveFailed fetch left attempt)
        ⊎ ((k : ℕ) × (m : ℕ) × (k ≡ attempt + m)
            × (log.attempts ≡ suc k)
            × HaveFailed fetch m attempt
            × (is_delivered (fetch k) ≡ true)
            × (log.delivered_at ≡ some (clock k))))

deliver_from_lem :
    (left attempt : ℕ) (show : ℕ → String) (fetch : ℕ → Outcome ℕ) (clock : ℕ → ℕ)
    (log : DeliveryLog)
    → suc left + attempt ≡ max_attempts
    → log.delivered_at ≡ none
    → IsDone (suc left) attempt fetch clock (deliver_from (suc left) attempt show fetch clock log)
unfolding deliver_from
deliver_from_lem zero attempt show fetch clock log fuel fresh =
    let tried = log_attempt-attempts show (clock attempt) attempt (fetch attempt) log in
    let noted = log_attempt-delivered show (clock attempt) attempt (fetch attempt) log fresh in
    let last : ltb (attempt + 1) max_attempts ≡ false = ground arith in
    elim (Bool-cases (is_delivered (fetch attempt))) [
      | inl ok ↦ rw ok (
        omega (arith, tried),
        omega (arith, tried),
        inr (attempt, 0, omega arith, tried, tt, ok, noted ∙ rw ok refl),
      )
      | inr failed ↦ rw failed (
          rw last (
            omega (arith, tried),
            omega (arith, tried),
            inl (omega (arith, tried), noted ∙ rw failed refl, (refl, tt)),
          ))
    ]
deliver_from_lem (suc left) attempt show fetch clock log fuel fresh =
    let log' = log_attempt show (clock attempt) attempt (fetch attempt) log in
    let tried = log_attempt-attempts show (clock attempt) attempt (fetch attempt) log in
    let noted = log_attempt-delivered show (clock attempt) attempt (fetch attempt) log fresh in
    let more : ltb (attempt + 1) max_attempts ≡ true = ground arith in
    elim (Bool-cases (is_delivered (fetch attempt))) [
      | inl ok ↦ rw ok (
        omega (arith, tried),
        omega (arith, tried),
        inr (attempt, 0, omega arith, tried, tt, ok, noted ∙ rw ok refl),
      )
      | inr failed ↦
          let (a, b, c) =
            deliver_from_lem left (suc attempt) show fetch clock log' (omega arith)
              (noted ∙ rw failed refl) in
          rw failed (
            rw more (
              a ∙ omega arith,
              b,
              elim c [
                | inl (full, not_yet, rest) ↦ inl (full, not_yet, (refl, rest))
                | inr (k, m, at, done, rest, ok, noted') ↦
                    inr (k, suc m, at ∙ omega arith, done, (failed, rest), ok, noted')
              ],
            ))
    ]

-- A delivery is tried at most five times, once more than it waits. It ends at its first success, with the
-- time of that attempt in its log, all attempts before having failed; or, if all five fail, after the
-- fifth, undelivered.
pub deliver_lem :
    (show : ℕ → String) (fetch : ℕ → Outcome ℕ) (clock : ℕ → ℕ) (id event : String)
    → let (log, delays) = deliver show fetch clock (new_log id event) in
      (log.attempts ≡ suc (length delays))
      × (log.attempts ≤ 5)
      × (((log.attempts ≡ 5) × (log.delivered_at ≡ none) × HaveFailed fetch 5 0)
          ⊎ ((k : ℕ) × (log.attempts ≡ suc k)
              × HaveFailed fetch k 0
              × (is_delivered (fetch k) ≡ true)
              × (log.delivered_at ≡ some (clock k))))
unfolding deliver
deliver_lem show fetch clock id event =
    let (a, b, c) = deliver_from_lem 4 0 show fetch clock (new_log id event) (omega arith) refl in
    (
      a ∙ omega arith,
      b,
      elim c [
        | inl h ↦ inl h
        | inr (k, m, at, done, rest, ok, noted) ↦
            let same : m ≡ k = omega (arith, at) in
            inr (k, done, subst (λ n. HaveFailed fetch n 0) same rest, ok, noted)
      ],
    )
