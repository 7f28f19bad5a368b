-- ===== src/Base/Date/Layout.antt =====
-- A date in the layout "2006-01-02": what is printed reads back.
use keyrus.Base.{ℕ, ◌+◌, ◌/◌, ◌%◌, ◌<◌, ◌≤◌, ◌≡◌, ◌∙◌, ap, true, some, [], ◌∷◌, arith}
use keyrus.Base.Text.{is_digit}
use keyrus.Base.Decimal.Print.{pad2-print_nat, pad4-print_nat}
use keyrus.Base.Date.{Date, is_date, days_in, format, parse, date_of}

digit_is_digit : (k : ℕ) → k < 10 → is_digit (b'0' + k) ≡ true
digit_is_digit k h = ground (arith, h)

-- the digits of a date spell it
date_of_digits :
    (d : Date)
    → d.year < 10000
    → d.month < 100
    → d.day < 100
    → date_of
        (b'0' + d.year / 1000)
        (b'0' + d.year / 100 % 10)
        (b'0' + d.year / 10 % 10)
        (b'0' + d.year % 10)
        (b'0' + d.month / 10)
        (b'0' + d.month % 10)
        (b'0' + d.day / 10)
        (b'0' + d.day % 10)
      ≡ d
date_of_digits d y m n = date-eq _ d (omega (arith, y)) (omega (arith, m)) (omega (arith, n))
  where
    date-eq : (a b : Date) → a.year ≡ b.year → a.month ≡ b.month → a.day ≡ b.day → a ≡ b
    date-eq a b h k l = cc

days_in_le : (y m : ℕ) → days_in y m ≤ 31
unfolding days_in
days_in_le y m = ground arith

month_lt : (d : Date) → is_date d ≡ true → d.month < 100
month_lt d v = ground (arith, v)

day_lt : (d : Date) → is_date d ≡ true → d.day < 100
day_lt d v = ground (arith, v, days_in_le d.year d.month)

parse_digits :
    (y1 y2 y3 y4 m1 m2 d1 d2 : ℕ)
    → (y1 < 10) × (y2 < 10) × (y3 < 10) × (y4 < 10)
    → (m1 < 10) × (m2 < 10) × (d1 < 10) × (d2 < 10)
    → (d : Date)
    → date_of
        (b'0' + y1)
        (b'0' + y2)
        (b'0' + y3)
        (b'0' + y4)
        (b'0' + m1)
        (b'0' + m2)
        (b'0' + d1)
        (b'0' + d2)
      ≡ d
    → is_date d ≡ true
    → parse (
        (b'0' + y1)
        ∷ (b'0' + y2)
        ∷ (b'0' + y3)
        ∷ (b'0' + y4)
        ∷ b'-'
        ∷ (b'0' + m1)
        ∷ (b'0' + m2)
        ∷ b'-'
        ∷ (b'0' + d1)
        ∷ (b'0' + d2)
        ∷ [])
      ≡ some d
unfolding parse
parse_digits y1 y2 y3 y4 m1 m2 d1 d2 (a, b, c, e) (f, g, h, k) d spelt v =
    rw
      (
        digit_is_digit y1 a,
        digit_is_digit y2 b,
        digit_is_digit y3 c,
        digit_is_digit y4 e,
        digit_is_digit m1 f,
        digit_is_digit m2 g,
        digit_is_digit d1 h,
        digit_is_digit d2 k,
        ap is_date spelt ∙ v,
      )
      (ap some spelt)

-- Every date of the calendar below the year ten thousand reads back from its layout.
pub parse-format : (d : Date) → is_date d ≡ true → d.year < 10000 → parse (format d) ≡ some d
unfolding format
parse-format d v h =
    let (m, n) : (d.month < 100) × (d.day < 100) = (month_lt d v, day_lt d v) in
    rw (pad4-print_nat d.year h, pad2-print_nat d.month m, pad2-print_nat d.day n)
      (parse_digits _ _ _ _ _ _ _ _ (omega (arith, h), omega arith, omega arith, omega arith)
        (omega (arith, m), omega arith, omega (arith, n), omega arith) d (date_of_digits d h m n) v)
