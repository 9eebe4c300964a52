-- ===== src/Loans/Interest.antt =====
-- backend/src/interestRate.ts: the kinked rate and simple interest, on whole numbers.
-- (`accrueCompoundInterest` computes a power of a double and is not modelled.)
pub mod Laws
use stellar_kraal.Common.{
  ltb, leb, if◌then◌else◌, ℕ, zero, suc, ◌+◌, ◌-◌, ◌*◌, ◌/◌, min, ap, Option, none, some,
}

pub record InterestRateModel : Type 0 where
  pub base_rate_bps : ℕ
  pub slope1_bps : ℕ
  pub slope2_bps : ℕ
  pub kink_bps : ℕ

abbrev pub default_model : InterestRateModel
default_model = record { base_rate_bps = 200; slope1_bps = 500; slope2_bps = 4500; kink_bps = 8000 }

abbrev pub bps : ℕ
bps = 10000

-- `none` is the RangeError. (A negative utilization, which the source refuses too, is no ℕ.)
unfoldable pub calc_interest_rate : ℕ → InterestRateModel → Option ℕ
calc_interest_rate u m =
    if ltb bps u
    then none
    else if leb u m.kink_bps
    then some (m.base_rate_bps + (m.slope1_bps * u) / bps)
    else some (
        m.base_rate_bps
        + (m.slope1_bps * m.kink_bps) / bps
        + (m.slope2_bps * (u - m.kink_bps)) / bps)

unfoldable pub calc_utilization : ℕ → ℕ → ℕ
calc_utilization borrowed liquidity =
    if leb liquidity 0 then 0 else min ((borrowed * bps) / liquidity) bps

abbrev pub ms_per_year : ℕ
ms_per_year = 31557600000

unfoldable pub accrue_simple_interest : ℕ → ℕ → ℕ → ℕ
accrue_simple_interest principal rate elapsed = (principal * rate * elapsed) / (bps * ms_per_year)
