-- ===== src/RpcClient/Laws.antt =====
-- backend/src/utils/rpcClient.ts: what the calls do to the pool, and to the breakers of other methods.
use stellar_kraal.Common.{
  ltb, ◌==◌, str_eq, if◌then◌else◌, Bool-cases, length, any_by, ℕ, ◌≤◌, ◌<◌, ◌≡◌, refl, sym, ap,
  ◌∙◌, ◌↔◌, ◌⊎◌, inl, inr, Bool, true, false, Option, none, some, List, [], ◌∷◌, ◌++◌, arith,
}
use stellar_kraal.Http.{Outcome, rejected}
use stellar_kraal.Pool.{ConnectionPool, acquire, release, set_remove, with_retry}
use stellar_kraal.Pool.Invariant.{IsValid, times, acquire-IsValid, release-IsValid}
use stellar_kraal.Alerting.{Channels}
use stellar_kraal.RpcClient.{
  RpcMethod, get_account, prepare_transaction, simulate_transaction, get_health, get_transaction,
  is_method, Breaker, Client, RpcCall, Turn, calls, ends_late, take_turn, end_late, run, answer_of,
  rpc_method, fire, get_circuit_states, is_healthy,
}

-- The pool is valid, and the late calls have the servers that it lends.
pub record IsAccounted {S : Type 0} (c : Client S) : Type 0 where
  pub valid : IsValid c.pool
  pub lends : c.pool.in_use ≡ c.running

set_remove-id : (s : ℕ) (xs : List ℕ) → times s xs ≡ 0 → set_remove s xs ≡ xs
set_remove-id s [] z = refl
set_remove-id s (x ∷ xs) z = ground (arith, z, set_remove-id s xs, Bool-cases (x == s))

times-any_by : (s : ℕ) (xs : List ℕ) → any_by (λ x. x == s) xs ≡ true → 1 ≤ times s xs
times-any_by s [] h = cc
times-any_by s (x ∷ xs) h = ground (arith, h, times-any_by s xs, Bool-cases (x == s))

set_remove-head : (s : ℕ) (xs : List ℕ) → times s xs ≡ 0 → set_remove s (s ∷ xs) ≡ xs
set_remove-head s xs z = ground (arith, set_remove-id s xs z)

release-in_use : (s : ℕ) (p : ConnectionPool) → (release s p).in_use ≡ set_remove s p.in_use
unfolding release
release-in_use s p = ground arith

-- What an acquisition of a valid pool comes to.
abbrev IsAcquired : ConnectionPool → Option ℕ × ConnectionPool → Type 0
IsAcquired p r =
    ((p.max_size ≤ length p.in_use) × (r ≡ (none, p)))
    ⊎ ((s : ℕ) × (length p.in_use < p.max_size)
        × (times s p.in_use ≡ 0)
        × (r.0 ≡ some s)
        × (r.1.in_use ≡ s ∷ p.in_use))

acquire-IsAcquired_on :
    (p : ConnectionPool) (xs : List ℕ) → p.pool ≡ xs → IsValid p → IsAcquired p (acquire p)
unfolding acquire
acquire-IsAcquired_on p [] e h = elim (Bool-cases (ltb (length p.in_use) p.max_size)) [
  | inl z ↦
      rw (e, z)
        (inr (p.next_server, ground (arith, z), ground (arith, h.old p.next_server), refl, refl))
  | inr z ↦ rw (e, z) (inl (ground (arith, z), refl))
]
acquire-IsAcquired_on p (s ∷ rest) e h =
    let fits = h.fits in
    let once = h.once s in
    rw e (inr (s, ground (arith, e, fits), ground (arith, e, once), refl, refl))

acquire-IsAcquired : (p : ConnectionPool) → IsValid p → IsAcquired p (acquire p)
acquire-IsAcquired p h = acquire-IsAcquired_on p p.pool refl h

open_or_closed : (o : Bool) → str_eq (if o then "open" else "closed") "closed" ≡ true → o ≡ false
open_or_closed true h = ground (arith, h)
open_or_closed false h = refl

module _ {S : Type 0} (b : Breaker S) (ch : Channels) where
  -- A call that its breaker keeps out reaches no server and changes nothing.
  fire-kept_out :
      {A : Type 0} (call : RpcCall A) (c : Client S)
      → b.admits call.begins (c.state_of call.method) ≡ false
      → fire b ch call c ≡ (rejected b.open_error, c)
  unfolding fire
  fire-kept_out call c out = rw (fire, out) refl

  -- A call leaves the breakers of the other methods as they are.
  pub fire-state_of :
      {A : Type 0} (call : RpcCall A) (m : RpcMethod) (c : Client S)
      → is_method m call.method ≡ false
      → (fire b ch call c).1.state_of m ≡ c.state_of m
  unfolding fire
  fire-state_of call m c other = elim (Bool-cases (b.admits call.begins (c.state_of call.method))) [
    | inl e ↦ rw (fire, e) (rw other refl)
    | inr e ↦ rw (fire, e) refl
  ]

  -- How a call is answered, with what it leaves under way: refused if its breaker keeps it out; otherwise
  -- with the error of the pool if as many late calls as the maximum go on, and else, by a server that
  -- none of them has, with the breaker's error while the tries go on, or with their end.
  abbrev pub IsAnswer : {A : Type 0} → RpcCall A → Client S → Outcome A × Client S → Type 0
  IsAnswer call c r =
      ((b.admits call.begins (c.state_of call.method) ≡ false) × (r ≡ (rejected b.open_error, c)))
      ⊎ ((b.admits call.begins (c.state_of call.method) ≡ true)
          × (c.pool.max_size ≤ length c.running)
          × (r.0 ≡ rejected "Connection pool exhausted")
          × (r.1.running ≡ c.running))
      ⊎ ((server : ℕ) × (b.admits call.begins (c.state_of call.method) ≡ true)
          × (length c.running < c.pool.max_size)
          × (times server c.running ≡ 0)
          × (r.0 ≡ (
              if call.is_late
              then rejected b.timeout_error
              else (with_retry (call.answers server)).ending))
          × (r.1.running ≡ (if call.is_late then server ∷ c.running else c.running)))

  -- The answer of a call that was let through, and what it does to the pool.
  fire-rpc_method :
      {A : Type 0} (call : RpcCall A) (c : Client S) (ended : Option (Outcome A))
      (q : ConnectionPool) (kept : List ℕ)
      → b.admits call.begins (c.state_of call.method) ≡ true
      → rpc_method call.answers call.is_late c.pool ≡ (ended, q, kept)
      → let r = fire b ch call c in
        (r.0 ≡ answer_of b ch ended) × (r.1.pool ≡ q) × (r.1.running ≡ kept ++ c.running)
  unfolding fire
  fire-rpc_method call c ended q kept e ran =
      (rw (fire, e, ran) refl, rw (fire, e, ran) refl, rw (fire, e, ran) refl)

  IsAccounted-of :
      (c : Client S) (q : ConnectionPool) (running : List ℕ)
      → c.pool ≡ q
      → c.running ≡ running
      → IsValid q
      → q.in_use ≡ running
      → IsAccounted c
  IsAccounted-of c q running e f v l = record {
    valid = rw e v;
    lends = ap (λ (x : ConnectionPool). x.in_use) e ∙ l ∙ sym f;
  }

  fire-exhausted :
      {A : Type 0} (call : RpcCall A) (c : Client S)
      → IsAccounted c
      → b.admits call.begins (c.state_of call.method) ≡ true
      → c.pool.max_size ≤ length c.pool.in_use
      → acquire c.pool ≡ (none, c.pool)
      → IsAnswer call c (fire b ch call c) × IsAccounted (fire b ch call c).1
  unfolding rpc_method
  fire-exhausted call c h e full same =
      let (o, p, k) =
        fire-rpc_method call c (some (rejected "Connection pool exhausted")) c.pool [] e (
          rw
            (
              rpc_method,
              ap (λ (r : Option ℕ × ConnectionPool). r.0) same,
              ap (λ (r : Option ℕ × ConnectionPool). r.1) same,
            )
            refl) in
      (
        inr (inl (e, rw⁻¹ h.lends full, o, k)),
        IsAccounted-of (fire b ch call c).1 c.pool c.running p k h.valid h.lends,
      )

  fire-served :
      {A : Type 0} (call : RpcCall A) (c : Client S) (s : ℕ)
      → IsAccounted c
      → b.admits call.begins (c.state_of call.method) ≡ true
      → length c.pool.in_use < c.pool.max_size
      → times s c.pool.in_use ≡ 0
      → (acquire c.pool).0 ≡ some s
      → (acquire c.pool).1.in_use ≡ s ∷ c.pool.in_use
      → IsAnswer call c (fire b ch call c) × IsAccounted (fire b ch call c).1
  unfolding rpc_method release
  fire-served call c s h e room new got lent =
      let at_outcome = λ (l : Bool).
        if l then rejected b.timeout_error else (with_retry (call.answers s)).ending in
      let at_running = λ (l : Bool). if l then s ∷ c.running else c.running in
      elim (Bool-cases call.is_late) [
        | inl late ↦
            let (o, p, k) =
              fire-rpc_method call c none (acquire c.pool).1 (s ∷ []) e
                (rw (rpc_method, got, late) refl) in
            (
              inr (
                  inr (
                    s,
                    e,
                    rw⁻¹ h.lends room,
                    rw⁻¹ h.lends new,
                    o ∙ ap at_outcome (sym late),
                    k ∙ ap at_running (sym late),
                  )),
              IsAccounted-of (fire b ch call c).1 (acquire c.pool).1 (s ∷ c.running) p k
                  (acquire-IsValid c.pool h.valid) (lent ∙ ap (λ xs. s ∷ xs) h.lends),
            )
        | inr on_time ↦
            let (o, p, k) =
              fire-rpc_method call c (some (with_retry (call.answers s)).ending)
                (release s (acquire c.pool).1) [] e (rw (rpc_method, got, on_time) refl) in
            let once : times s (acquire c.pool).1.in_use ≡ 1 = rw lent (ground (arith, new)) in
            (
              inr (
                  inr (
                    s,
                    e,
                    rw⁻¹ h.lends room,
                    rw⁻¹ h.lends new,
                    o ∙ ap at_outcome (sym on_time),
                    k ∙ ap at_running (sym on_time),
                  )),
              IsAccounted-of (fire b ch call c).1 (release s (acquire c.pool).1) c.running p k
                  (release-IsValid s (acquire c.pool).1 (acquire-IsValid c.pool h.valid) once)
                  (release-in_use s (acquire c.pool).1
                    ∙ ap (set_remove s) lent
                    ∙ set_remove-head s c.pool.in_use new
                    ∙ h.lends),
            )
      ]

  fire-IsAnswer :
      {A : Type 0} (call : RpcCall A) (c : Client S)
      → IsAccounted c
      → IsAnswer call c (fire b ch call c) × IsAccounted (fire b ch call c).1
  fire-IsAnswer call c h = elim (Bool-cases (b.admits call.begins (c.state_of call.method))) [
    | inl e ↦ elim (acquire-IsAcquired c.pool h.valid) [
      | inl (full, same) ↦ fire-exhausted call c h e full same
      | inr (s, room, new, got, lent) ↦ fire-served call c s h e room new got lent
    ]
    | inr e ↦ rw (fire-kept_out call c e) (inl (e, refl), h)
  ]

  end_late-IsAccounted : (s : ℕ) (c : Client S) → IsAccounted c → IsAccounted (end_late s c)
  unfolding end_late
  end_late-IsAccounted s c h = elim (Bool-cases (any_by (λ x. x == s) c.running)) [
    | inl e ↦
        let here : 1 ≤ times s c.pool.in_use = rw h.lends (times-any_by s c.running e) in
        let once : times s c.pool.in_use ≡ 1 = ground (arith, here, h.valid.once s) in
        rw e (record {
          valid = release-IsValid s c.pool h.valid once;
          lends = release-in_use s c.pool ∙ ap (set_remove s) h.lends;
        })
    | inr e ↦ rw e h
  ]

  run-IsAccounted :
      {A : Type 0} (turns : List (Turn A)) (c : Client S)
      → IsAccounted c
      → IsAccounted (run b ch turns c)
  unfolding take_turn
  run-IsAccounted [] c h = h
  run-IsAccounted (calls call ∷ turns) c h =
      run-IsAccounted turns (fire b ch call c).1 (fire-IsAnswer call c h).1
  run-IsAccounted (ends_late s ∷ turns) c h =
      run-IsAccounted turns (end_late s c) (end_late-IsAccounted s c h)

  -- After any calls and ends of late calls, one after the other, from a client whose pool is valid and
  -- lends just the servers of its late calls: a call is refused if its breaker keeps it out; otherwise it
  -- meets an exhausted pool exactly if as many late calls as the maximum still go on, and if not, it gets
  -- a server that none of them has, and is answered with the end of its tries there, or with the
  -- breaker's error if they take longer than ten seconds. It keeps the server only in that last case,
  -- and the pool is valid and lends just the servers of the late calls again.
  pub run-fire :
      {A : Type 0} (turns : List (Turn A)) (call : RpcCall A) (c : Client S)
      → IsAccounted c
      → let c' = run b ch turns c in
        IsAnswer call c' (fire b ch call c') × IsAccounted (fire b ch call c').1
  run-fire turns call c h = fire-IsAnswer call (run b ch turns c) (run-IsAccounted turns c h)

  -- The client is healthy exactly if it reports the circuit of every method as closed.
  pub is_healthy-get_circuit_states :
      (c : Client S)
      → (is_healthy b c ≡ true) ↔ ((m : RpcMethod) → get_circuit_states b c m ≡ "closed")
  unfolding is_healthy get_circuit_states
  is_healthy-get_circuit_states c = (λ h m. each h m, λ h. all h)
    where
      each : is_healthy b c ≡ true → (m : RpcMethod) → get_circuit_states b c m ≡ "closed"
      each h get_account = ground (arith, h)
      each h prepare_transaction = ground (arith, h)
      each h simulate_transaction = ground (arith, h)
      each h get_health = ground (arith, h)
      each h get_transaction = ground (arith, h)

      all : ((m : RpcMethod) → get_circuit_states b c m ≡ "closed") → is_healthy b c ≡ true
      all h = ground (
        arith,
        open_or_closed (b.opened (c.state_of get_account))
            (ap (λ t. str_eq t "closed") (h get_account)),
        open_or_closed (b.opened (c.state_of prepare_transaction))
            (ap (λ t. str_eq t "closed") (h prepare_transaction)),
        open_or_closed (b.opened (c.state_of simulate_transaction))
            (ap (λ t. str_eq t "closed") (h simulate_transaction)),
        open_or_closed (b.opened (c.state_of get_health))
            (ap (λ t. str_eq t "closed") (h get_health)),
        open_or_closed (b.opened (c.state_of get_transaction))
            (ap (λ t. str_eq t "closed") (h get_transaction)),
      )
