-- ===== src/Base/Date/Order.antt =====
-- The order of calendar dates and the day before a date.
use keyrus.Base.{
  ℕ, zero, suc, ◌-◌, ◌≤◌, ◌<◌, ◌≡◌, ◌⊎◌, inl, inr, sym, ◌∙◌, ap, subst, true, false, arith, ltb,
  Bool-cases,
}
use keyrus.Base.Date.{Date, is_date, days_in, before, prev_day, minus_days}

pub before-eq : (a b : Date) → before a b ≡ false → before b a ≡ false → a ≡ b
unfolding before
before-eq a b h k =
    record-eq a b (ground (arith, h, k)) (ground (arith, h, k)) (ground (arith, h, k))
  where
    record-eq : (a b : Date) → a.year ≡ b.year → a.month ≡ b.month → a.day ≡ b.day → a ≡ b
    record-eq a b y m d = cc

before-asym : (a b : Date) → before a b ≡ true → before b a ≡ false
unfolding before
before-asym a b h = ground (arith, h)

before_trans : (a b c : Date) → before a b ≡ true → before c b ≡ false → before a c ≡ true
unfolding before
before_trans a b c h k = ground (arith, h, k)

days_in_small : (y m : ℕ) → days_in y m ≤ 31
unfolding days_in
days_in_small y m = ground arith

valid-parts :
    (a : Date) → is_date a ≡ true → (1 ≤ a.month) × (a.month ≤ 12) × (1 ≤ a.day) × (a.day ≤ 31)
valid-parts a v =
    let small = days_in_small a.year a.month in
    (ground (arith, v), ground (arith, v), ground (arith, v), ground (arith, v, small))

valid-day : (a : Date) → is_date a ≡ true → a.day ≤ days_in a.year a.month
valid-day a v = ground (arith, v)

-- a date before another one, field by field
before-parts :
    (a t : Date)
    → before a t ≡ true
    → (a.year < t.year)
      ⊎ ((a.year ≡ t.year) × ((a.month < t.month) ⊎ ((a.month ≡ t.month) × (a.day < t.day))))
unfolding before
before-parts a t h = ground (arith, h)

not_before-year : (a b : Date) → b.year < a.year → before a b ≡ false
unfolding before
not_before-year a b h = ground (arith, h)

not_before-month : (a b : Date) → a.year ≡ b.year → b.month < a.month → before a b ≡ false
unfolding before
not_before-month a b y h = ground (arith, y, h)

not_before-day :
    (a b : Date) → a.year ≡ b.year → b.month ≤ a.month → b.day ≤ a.day → before a b ≡ false
unfolding before
not_before-day a b y m h = ground (arith, y, m, h)

-- no date lies between a date and the day before it: the three kinds of days
prev_day_late :
    (a t : Date) → before a t ≡ true → 1 < t.day → before (record t { day = t.day - 1 }) a ≡ false
prev_day_late a t h late = elim (before-parts a t h) [
  | inl y ↦ not_before-year _ a y
  | inr (y, inl m) ↦ not_before-month _ a (sym y) m
  | inr (y, inr (m, d)) ↦ not_before-day _ a (sym y) (omega (arith, m)) (omega (arith, d, late))
]

prev_day_first :
    (a t : Date)
    → is_date a ≡ true
    → before a t ≡ true
    → t.day ≤ 1
    → 1 < t.month
    → before (record t { month = t.month - 1; day = days_in t.year (t.month - 1) }) a ≡ false
prev_day_first a t v h first late = elim (before-parts a t h) [
  | inl y ↦ not_before-year _ a y
  | inr (y, inl m) ↦ elim (Bool-cases (ltb a.month (t.month - 1))) [
    | inl less ↦ not_before-month _ a (sym y) (ground (arith, less))
    | inr last ↦
        let month : a.month ≡ t.month - 1 = ground (arith, last, m, late) in
        let day : a.day ≤ days_in t.year (t.month - 1) =
          subst (λ x. a.day ≤ x) (ap (λ x. days_in x a.month) y ∙ ap (days_in t.year) month)
            (valid-day a v) in
        not_before-day _ a (sym y) (omega (arith, month)) day
  ]
  | inr (y, inr (m, d)) ↦
      let (_, _, positive, _) = valid-parts a v in absurd (omega (arith, d, first, positive))
]

prev_day_january :
    (a t : Date)
    → is_date a ≡ true
    → before a t ≡ true
    → t.day ≤ 1
    → t.month ≤ 1
    → before (record { year = t.year - 1; month = 12; day = 31 }) a ≡ false
prev_day_january a t v h first january =
    let (month, year_end, day, month_end) = valid-parts a v in
    elim (before-parts a t h) [
      | inl y ↦ elim (Bool-cases (ltb a.year (t.year - 1))) [
        | inl less ↦ not_before-year _ a (ground (arith, less))
        | inr last ↦ not_before-day _ a (ground (arith, last, y)) year_end month_end
      ]
      | inr (y, inl m) ↦ absurd (omega (arith, m, month, january))
      | inr (y, inr (m, d)) ↦ absurd (omega (arith, d, first, day))
    ]

pub prev_day_next :
    (a t : Date) → is_date a ≡ true → before a t ≡ true → before (prev_day t) a ≡ false
unfolding prev_day
prev_day_next a t v h = elim (Bool-cases (ltb 1 t.day)) [
  | inl late ↦ rw late (prev_day_late a t h (ground (arith, late)))
  | inr first ↦ elim (Bool-cases (ltb 1 t.month)) [
    | inl late ↦
        rw (first, late) (prev_day_first a t v h (ground (arith, first)) (ground (arith, late)))
    | inr january ↦
        rw (first, january)
          (prev_day_january a t v h (ground (arith, first)) (ground (arith, january)))
  ]
]

-- the date is in the year 1 or later, or at least `k` days into the December before it
abbrev pub HasPast : ℕ → Date → Type 0
HasPast k t = (1 ≤ t.year) ⊎ ((t.month ≡ 12) × (k < t.day))

prev_day-HasPast : (k : ℕ) (t : Date) → k < 31 → HasPast (suc k) t → HasPast k (prev_day t)
unfolding prev_day
prev_day-HasPast k t b h = ground (arith, b, h)

prev_day-before : (k : ℕ) (t : Date) → HasPast (suc k) t → before (prev_day t) t ≡ true
unfolding prev_day before
prev_day-before k t h = ground (arith, h)

before-stays : (a b c : Date) → before a b ≡ true → before a c ≡ false → before b c ≡ false
unfolding before
before-stays a b c h k = ground (arith, h, k)

before_self : (a : Date) → before a a ≡ false
unfolding before
before_self a = ground arith

pub not_after : (k : ℕ) (t : Date) → k ≤ 31 → HasPast k t → before t (minus_days k t) ≡ false
unfolding minus_days
not_after zero t b h = before_self t
not_after (suc k) t b h =
    before-stays (prev_day t) t (minus_days k (prev_day t)) (prev_day-before k t h)
      (not_after k (prev_day t) (omega (arith, b)) (prev_day-HasPast k t (omega (arith, b)) h))

pub not_before :
    (n k : ℕ) (t : Date)
    → n ≤ k
    → k ≤ 31
    → HasPast k t
    → before (minus_days n t) (minus_days k t) ≡ false
unfolding minus_days
not_before zero k t s b h = not_after k t b h
not_before (suc n) zero t s b h = absurd (omega (arith, s))
not_before (suc n) (suc k) t s b h =
    not_before n k (prev_day t) (omega (arith, s)) (omega (arith, b))
      (prev_day-HasPast k t (omega (arith, b)) h)
