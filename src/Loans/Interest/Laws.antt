-- ===== src/Loans/Interest/Laws.antt =====
-- backend/src/interestRate.ts: the rate as a function of the utilization, and interest over time.
use stellar_kraal.Common.{
  leb, Bool-cases, ℕ, ◌+◌, ◌-◌, ◌*◌, ◌/◌, ◌≤◌, ◌<◌, ◌≡◌, ◌↔◌, inl, inr, none, some, arith,
}
use stellar_kraal.Loans.Interest.{
  InterestRateModel, bps, calc_interest_rate, calc_utilization, ms_per_year, accrue_simple_interest,
}

div_mono : (a b d : ℕ) → a ≤ b → a / d ≤ b / d
div_mono a b d h = grind arith

pub mul_mono : (k a b : ℕ) → a ≤ b → k * a ≤ k * b
mul_mono k a b h = grind arith

-- The rate is defined exactly for a utilization of at most 10000 basis points.
pub calc_interest_rate-none :
    (u : ℕ) (m : InterestRateModel) → (calc_interest_rate u m ≡ none) ↔ (bps < u)
unfolding calc_interest_rate
calc_interest_rate-none u m = (λ h. ground arith, λ h. ground arith)

-- On both sides of the kink and across it, a higher utilization never has a lower rate.
pub calc_interest_rate_mono :
    (m : InterestRateModel) (u v : ℕ) {r q : ℕ}
    → u ≤ v
    → calc_interest_rate u m ≡ some r
    → calc_interest_rate v m ≡ some q
    → r ≤ q
unfolding calc_interest_rate
calc_interest_rate_mono m u v h e f = ground (
  arith,
  div_mono (m.slope1_bps * u) (m.slope1_bps * v) bps (mul_mono m.slope1_bps u v h),
  div_mono (m.slope1_bps * u) (m.slope1_bps * m.kink_bps) bps,
  mul_mono m.slope1_bps u m.kink_bps,
  div_mono (m.slope2_bps * (u - m.kink_bps)) (m.slope2_bps * (v - m.kink_bps)) bps,
  mul_mono m.slope2_bps (u - m.kink_bps) (v - m.kink_bps),
)

utilization_le : (borrowed liquidity : ℕ) → calc_utilization borrowed liquidity ≤ bps
unfolding calc_utilization
utilization_le borrowed liquidity = ground arith

div_le : (k u : ℕ) → u ≤ bps → (k * u) / bps ≤ k
div_le k u h = let le : k * u ≤ k * bps = mul_mono k u bps h in omega arith

rate_bounds :
    (m : InterestRateModel) (u : ℕ)
    → m.kink_bps ≤ bps
    → u ≤ bps
    → (r : ℕ) × (calc_interest_rate u m ≡ some r)
      × (m.base_rate_bps ≤ r)
      × (r ≤ m.base_rate_bps + m.slope1_bps + m.slope2_bps)
unfolding calc_interest_rate
rate_bounds m u k h = elim (Bool-cases (leb u m.kink_bps)) [
  | inl e ↦ (
    m.base_rate_bps + (m.slope1_bps * u) / bps,
    ground arith,
    omega arith,
    omega (arith, div_le m.slope1_bps u h),
  )
  | inr e ↦ (
    m.base_rate_bps + (m.slope1_bps * m.kink_bps) / bps + (m.slope2_bps * (u - m.kink_bps)) / bps,
    ground arith,
    omega arith,
    omega (
      arith,
      div_le m.slope1_bps m.kink_bps k,
      div_le m.slope2_bps (u - m.kink_bps) (omega arith),
    ),
  )
]

div_add :
    (x y : ℕ)
    → (x / (bps * ms_per_year) + y / (bps * ms_per_year) ≤ (x + y) / (bps * ms_per_year))
      × ((x + y) / (bps * ms_per_year) ≤ x / (bps * ms_per_year) + y / (bps * ms_per_year) + 1)
div_add x y = (omega arith, omega arith)

-- The rate is defined for every utilization that `calc_utilization` computes, and with the kink
-- inside the range it lies between the base rate and the sum of the three rates.
pub calc_interest_rate-calc_utilization :
    (m : InterestRateModel) (borrowed liquidity : ℕ)
    → m.kink_bps ≤ bps
    → (r : ℕ) × (calc_interest_rate (calc_utilization borrowed liquidity) m ≡ some r)
      × (m.base_rate_bps ≤ r)
      × (r ≤ m.base_rate_bps + m.slope1_bps + m.slope2_bps)
calc_interest_rate-calc_utilization m borrowed liquidity k =
    rate_bounds m (calc_utilization borrowed liquidity) k (utilization_le borrowed liquidity)

-- Interest over two periods in a row is never more than over both at once, and short of it by less
-- than two units.
pub accrue_simple_interest-add :
    (p r a b : ℕ)
    → (accrue_simple_interest p r a + accrue_simple_interest p r b
        ≤ accrue_simple_interest p r (a + b))
      × (accrue_simple_interest p r (a + b)
          ≤ accrue_simple_interest p r a + accrue_simple_interest p r b + 1)
unfolding accrue_simple_interest
accrue_simple_interest-add p r a b =
    let split : p * r * (a + b) ≡ p * r * a + p * r * b = omega arith in
    rw split (div_add (p * r * a) (p * r * b))
