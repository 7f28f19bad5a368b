-- ===== src/Base/Date/Number.antt =====
-- A date as the number of days since the first of January of year 0, the way a date column keeps it.
use keyrus.Base.{ℕ, zero, suc, ◌+◌, ◌-◌, ◌*◌, ◌/◌, ◌==◌, if◌then◌else◌}
use keyrus.Base.Date.{Date, days_in}

-- the days of the years before a year
abbrev pub year_days : ℕ → ℕ
year_days y = 365 * y + (y + 3) / 4 + (y + 399) / 400 - (y + 99) / 100

-- the days of the months before a month
unfoldable pub month_days : ℕ → ℕ → ℕ
unfolding days_in
month_days y zero = 0
month_days y (suc k) = month_days y k + (if k == 0 then 0 else days_in y k)

unfoldable pub day_number : Date → ℕ
unfolding month_days
day_number d = year_days d.year + month_days d.year d.month + d.day - 1
