-- ===== src/Ledger/Calendar/Window.antt =====
-- `Calendar.Resolve` of services/ledger/internal/domain/calendar.go: which dates it accepts.
use keyrus.Base.{ℕ, zero, suc, ◌≤◌, ◌≡◌, inl, inr, refl, true, false, some, arith, ok, Bool-cases}
use keyrus.Base.Date.{Date, is_date, before, prev_day, minus_days}
use keyrus.Base.Date.Order.{before-eq, prev_day_next, not_before, not_after}
use keyrus.Ledger.Calendar.{Location, resolve, is_outside, maximum_backdate_days}

within :
    (k : ℕ) (t d : Date)
    → is_date d ≡ true
    → before d (minus_days k t) ≡ false
    → before t d ≡ false
    → (n : ℕ) × (n ≤ k) × (minus_days n t ≡ d)
unfolding minus_days
within zero t d v low high = (0, omega arith, before-eq t d high low)
within (suc k) t d v low high = elim (Bool-cases (before d t)) [
  | inr same ↦ (0, omega arith, before-eq t d high same)
  | inl earlier ↦
      let (n, small, same) = within k (prev_day t) d v low (prev_day_next d t v earlier) in
      (suc n, omega (arith, small), same)
]

-- `Resolve` accepts a requested date of the calendar only if it is the business date of today or
-- of one of the thirty days before it, and returns that date.
pub resolve_window :
    (location : Location) (now : ℕ) (requested date : Date)
    → is_date requested ≡ true
    → resolve location now (some requested) ≡ ok date
    → (date ≡ requested)
      × ((n : ℕ) × (n ≤ maximum_backdate_days) × (minus_days n (location now) ≡ requested))
unfolding resolve
resolve_window location now requested date v h =
    elim (Bool-cases (is_outside (location now) requested)) [
      | inl outside ↦ ground (arith, outside, h)
      | inr inside ↦ (
        ground (arith, inside, h),
        within maximum_backdate_days (location now) requested v (ground (arith, inside))
            (ground (arith, inside)),
      )
    ]

-- In the year 1 and later, `Resolve` accepts today and each of the thirty days before it.
resolve_complete :
    (location : Location) (now n : ℕ)
    → 1 ≤ (location now).year
    → n ≤ maximum_backdate_days
    → resolve location now (some (minus_days n (location now))) ≡ ok (minus_days n (location now))
unfolding resolve
resolve_complete location now n y small =
    rw
      (
        not_before n maximum_backdate_days (location now) small (omega arith) (inl y),
        not_after n (location now) (omega (arith, small)) (inl y),
      )
      refl
