-- ===== src/Accounting/Clock.antt =====
-- The readings of `datetime.now` that a transaction makes, taken at one instant.
use quiblyx.Common.{ℕ}
use quiblyx.Model.{Period, monthly, daily}

pub record Clock : Type 0 where
  pub now : ℕ
  pub month_number : ℕ
  pub day_number : ℕ

abbrev pub month : Clock → Period
month c = monthly c.month_number

-- `datetime.now(timezone.utc).strftime("%Y-%m-%d")`
abbrev pub today : Clock → Period
today c = daily c.day_number
