-- ===== src/Base/Date.antt =====
-- Calendar dates of Go's package time: the layout "2006-01-02", `Before`, `AddDate`.
pub mod Order
pub mod Number
pub mod Layout
use keyrus.Base.{
  ℕ, zero, suc, ◌+◌, ◌-◌, ◌*◌, ◌%◌, ◌≤◌, Bool, true, false, not, ◌&&◌, ◌||◌, Option, none, some,
  List, [], ◌∷◌, ◌++◌, ltb, leb, ◌==◌, if◌then◌else◌, length,
}
use keyrus.Base.Text.{Text, is_digit}
use keyrus.Base.Decimal.{print_nat, pad2, pad4}

-- A date as `time.Time.Date` gives it, of year 0 or later.
pub record Date : Type 0 where
  pub year : ℕ
  pub month : ℕ
  pub day : ℕ

abbrev pub is_leap : ℕ → Bool
is_leap y = (y % 4 == 0) && (not (y % 100 == 0) || (y % 400 == 0))

unfoldable pub days_in : ℕ → ℕ → ℕ
days_in y m =
    if m == 2
    then if is_leap y then 29 else 28
    else if (m == 4) || ((m == 6) || ((m == 9) || (m == 11)))
    then 30
    else 31

-- a date of the calendar
abbrev pub is_date : Date → Bool
is_date d = (leb 1 d.month && leb d.month 12) && (leb 1 d.day && leb d.day (days_in d.year d.month))

-- `time.Time.Before`
unfoldable pub before : Date → Date → Bool
before a b =
    ltb a.year b.year
    || ((a.year == b.year) && (ltb a.month b.month || ((a.month == b.month) && ltb a.day b.day)))

-- `time.Time.IsZero`: the first of January of year 1
abbrev pub is_zero_date : Date → Bool
is_zero_date d = (d.year == 1) && ((d.month == 1) && (d.day == 1))

-- `AddDate(0, 0, -1)`
unfoldable pub prev_day : Date → Date
unfolding days_in
prev_day d =
    if ltb 1 d.day
    then record d { day = d.day - 1 }
    else if ltb 1 d.month
    then record d { month = d.month - 1; day = days_in d.year (d.month - 1) }
    else record { year = d.year - 1; month = 12; day = 31 }

-- `AddDate(0, 0, -n)`
unfoldable pub minus_days : ℕ → Date → Date
minus_days zero d = d
minus_days (suc n) d = minus_days n (prev_day d)

-- `Format("2006-01-02")`
unfoldable pub format : Date → Text
format d =
    pad4 (print_nat d.year) ++ b'-' ∷ (pad2 (print_nat d.month) ++ b'-' ∷ pad2 (print_nat d.day))

abbrev pub digit : ℕ → ℕ
digit c = c - b'0'

-- the date of ten bytes whose digits are at their places
abbrev pub date_of : ℕ → ℕ → ℕ → ℕ → ℕ → ℕ → ℕ → ℕ → Date
date_of y1 y2 y3 y4 m1 m2 d1 d2 = record {
  year = digit y1 * 1000 + digit y2 * 100 + digit y3 * 10 + digit y4;
  month = digit m1 * 10 + digit m2;
  day = digit d1 * 10 + digit d2;
}

-- `time.Parse("2006-01-02", s)`: four, two and two digits, and a date of the calendar
unfoldable pub parse : Text → Option Date
unfolding days_in
parse (y1 ∷ y2 ∷ y3 ∷ y4 ∷ s1 ∷ m1 ∷ m2 ∷ s2 ∷ d1 ∷ d2 ∷ []) =
    let d = date_of y1 y2 y3 y4 m1 m2 d1 d2 in
    if (is_digit y1 && (is_digit y2 && (is_digit y3 && is_digit y4)))
      && ((s1 == b'-')
          && ((is_digit m1 && is_digit m2) && ((s2 == b'-') && (is_digit d1 && is_digit d2))))
      && is_date d
    then some d
    else none
parse _ = none
