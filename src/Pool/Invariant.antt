-- ===== src/Pool/Invariant.antt =====
-- backend/src/utils/connectionPool.ts: the pool under any order of calls, and the retries.
use stellar_kraal.Common.{
  ◌==◌, if◌then◌else◌, length, any_by, ℕ, zero, suc, ◌+◌, ◌≤◌, ◌≡◌, ◌↔◌, inl, inr, Bool, none, some,
  List, [], ◌∷◌, arith,
}
use stellar_kraal.Http.{Outcome, resolved, rejected, Outcome-cases}
use stellar_kraal.Pool.{
  ConnectionPool, fill, new_pool, set_remove, acquire, release, with_retry, run_with,
}

abbrev is_in : ℕ → List ℕ → Bool
is_in c xs = any_by (λ x. x == c) xs

-- How often a server is in the pool or lent.
abbrev pub times : ℕ → List ℕ → ℕ
times c [] = 0
times c (x ∷ xs) = if x == c then suc (times c xs) else times c xs

-- The pool and what is lent are within the maximum, no server is there twice, and all are older
-- than the next one.
pub record IsValid (p : ConnectionPool) : Type 0 where
  pub fits : length p.pool + length p.in_use ≤ p.max_size
  pub once : (c : ℕ) → times c p.pool + times c p.in_use ≤ 1
  pub old : (c : ℕ) → p.next_server ≤ c → times c p.pool + times c p.in_use ≡ 0

times-set_remove :
    (c d : ℕ) (xs : List ℕ) → times c (set_remove d xs) ≡ (if d == c then 0 else times c xs)
times-set_remove c d [] = ground arith
times-set_remove c d (x ∷ xs) = ground (arith, times-set_remove c d xs)

length-set_remove : (c : ℕ) (xs : List ℕ) → length (set_remove c xs) + times c xs ≡ length xs
length-set_remove c [] = omega arith
length-set_remove c (x ∷ xs) = ground (arith, length-set_remove c xs)

fill-IsValid :
    (n : ℕ) (p : ConnectionPool)
    → n + length p.pool + length p.in_use ≤ p.max_size
    → IsValid p
    → IsValid (fill n p)
unfolding fill
fill-IsValid zero p le h = h
fill-IsValid (suc n) p le h = fill-IsValid n _ (omega arith) (record {
  fits = omega arith;
  once = λ c. ground (arith, h.once c, h.old c);
  old = λ c k. ground (arith, h.old c);
})

-- A new pool is valid if its minimum is no more than its maximum.
pub new_pool-IsValid : (lo hi : ℕ) → lo ≤ hi → IsValid (new_pool lo hi)
unfolding new_pool
new_pool-IsValid lo hi le =
    fill-IsValid lo _ (omega arith)
      (record { fits = omega arith; once = λ c. omega arith; old = λ c k. omega arith })

pub acquire-IsValid : (p : ConnectionPool) → IsValid p → IsValid (acquire p).1
unfolding acquire
acquire-IsValid p h = record {
  fits = ground (arith, h.fits);
  once = λ c. ground (arith, h.once c, h.old c);
  old = λ c k. ground (arith, h.old c);
}

pub release-IsValid :
    (c : ℕ) (p : ConnectionPool) → IsValid p → times c p.in_use ≡ 1 → IsValid (release c p)
unfolding release
release-IsValid c p h lent = record {
  fits = ground (arith, h.fits, length-set_remove c p.in_use);
  once = λ d. ground (arith, h.once d, times-set_remove d c p.in_use);
  old = λ d k. ground (arith, h.old d, h.old c, times-set_remove d c p.in_use, lent);
}

release-times : (c : ℕ) (q : ConnectionPool) → times c (release c q).in_use ≡ 0
unfolding release
release-times c q = ground (arith, times-set_remove c c q.in_use)

-- An acquisition fails exactly if nothing is idle and the maximum is lent.
pub acquire-none :
    (p : ConnectionPool) → ((acquire p).0 ≡ none) ↔ ((p.pool ≡ []) × (p.max_size ≤ length p.in_use))
unfolding acquire
acquire-none p = (λ h. (ground arith, ground arith), λ h. ground arith)

-- One turn of the event loop, as the pool sees it: a request takes a server, or one that was lent
-- comes back.
pub data Turn : ConnectionPool → ConnectionPool → Type 0 where
  take_one : (p : ConnectionPool) → Turn p (acquire p).1
  give_back : (c : ℕ) (p : ConnectionPool) → times c p.in_use ≡ 1 → Turn p (release c p)

pub data Reach (p : ConnectionPool) : ConnectionPool → Type 0 where
  here : Reach p p
  next : {q r : ConnectionPool} → Reach p q → Turn q r → Reach p r

Turn-IsValid : {p q : ConnectionPool} → Turn p q → IsValid p → IsValid q
Turn-IsValid (take_one p) h = acquire-IsValid p h
Turn-IsValid (give_back c p lent) h = release-IsValid c p h lent

-- In every order of takings and returns, a pool whose minimum is no more than its maximum holds and
-- lends at most its maximum in total, and no server is idle or lent twice.
pub Reach-IsValid :
    (lo hi : ℕ) {p : ConnectionPool} → lo ≤ hi → Reach (new_pool lo hi) p → IsValid p
Reach-IsValid lo hi le here = new_pool-IsValid lo hi le
Reach-IsValid lo hi le (next r t) = Turn-IsValid t (Reach-IsValid lo hi le r)

-- A call is retried at most twice, after one and then two seconds; the first success ends it, and
-- if there is none it ends with the third error.
pub with_retry_lem :
    {A : Type 0} (fn : ℕ → Outcome A)
    → with_retry fn ≡ elim (fn 0) [
      | resolved a ↦ record { calls = 1; delays = []; ending = resolved a }
      | rejected e ↦ elim (fn 1) [
        | resolved a ↦ record { calls = 2; delays = 1000 ∷ []; ending = resolved a }
        | rejected f ↦ record { calls = 3; delays = 1000 ∷ 2000 ∷ []; ending = fn 2 }
      ]
    ]
unfolding with_retry
with_retry_lem fn = elim (Outcome-cases (fn 0)) [
  | inl (a, h) ↦ rw h
  | inr (e, h) ↦ elim (Outcome-cases (fn 1)) [
    | inl (a, k) ↦ rw (h, k)
    | inr (f, k) ↦ elim (Outcome-cases (fn 2)) [
      | inl (a, l) ↦ rw (h, k, l)
      | inr (g, l) ↦ rw (h, k, l)
    ]
  ]
]

-- When a call by `run` has ended, well or with an error, the server that it took is no more lent, and
-- the pool is valid, if what ran meanwhile left the pool valid and that server lent.
pub run_with-returns :
    {A : Type 0} (fn : ℕ → ℕ → Outcome A) (meanwhile : ConnectionPool → ConnectionPool)
    (p : ConnectionPool) (c : ℕ)
    → (acquire p).0 ≡ some c
    → IsValid (meanwhile (acquire p).1)
    → times c (meanwhile (acquire p).1).in_use ≡ 1
    → (times c (run_with fn meanwhile p).1.in_use ≡ 0) × IsValid (run_with fn meanwhile p).1
unfolding run_with
run_with-returns fn meanwhile p c got valid lent =
    let q = meanwhile (acquire p).1 in
    rw (got, run_with) (release-times c q, release-IsValid c q valid lent)
