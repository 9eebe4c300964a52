-- ===== src/Alerting/Laws.antt =====
-- backend/src/utils/alerting.ts: the cooldown of an alert rule.
use stellar_kraal.Common.{
  ltb, if◌then◌else◌, Bool-cases, get, put, get-put_self, get-put_ne, ℕ, ◌+◌, ◌≤◌, String, ◌≡◌, sym,
  subst, ◌≢◌, inl, inr, false, some, [], ◌++◌, arith,
}
use stellar_kraal.Alerting.{
  AlertRule, Channels, LastFired, is_cooling_down, send_slack, send_pagerduty, fire_alert,
}

-- Once a rule has fired, an alert with the same rule id at a later time is silent and leaves the
-- record alone until the later rule's cooldown is over, and is sent and recorded from then on;
-- alerts of another rule id are not affected by the first.
pub fire_alert-cooldown :
    (ch : Channels) (t u : ℕ) (rule again other : AlertRule) (m n : String) (fired : LastFired)
    → t ≤ u
    → again.id ≡ rule.id
    → rule.id ≢ other.id
    → is_cooling_down t rule fired ≡ false
    → let fired' = (fire_alert ch t rule m fired).1 in
      (fire_alert ch u again n fired' ≡ (
        if ltb u (t + again.cooldown_ms)
        then ([], fired')
        else (send_slack ch again n ++ send_pagerduty ch again n, put again.id u fired')))
      × (is_cooling_down u other fired' ≡ is_cooling_down u other fired)
unfolding fire_alert is_cooling_down
fire_alert-cooldown ch t u rule again other m n fired le same ne fresh =
    let known : get again.id (put rule.id t fired) ≡ some t =
      subst (λ k. get k (put rule.id t fired) ≡ some t) (sym same) (get-put_self rule.id t fired) in
    (
      elim (Bool-cases (ltb u (t + again.cooldown_ms))) [
        | inl soon ↦ rw soon (ground (arith, fresh, known))
        | inr late ↦ rw late (ground (arith, fresh, known))
      ],
      ground (arith, fresh, get-put_ne rule.id other.id t fired ne),
    )
