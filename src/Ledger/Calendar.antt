-- ===== src/Ledger/Calendar.antt =====
-- services/ledger/internal/domain/calendar.go: the business date of an entry.
pub mod Window
use keyrus.Base.{ℕ, Bool, ◌||◌, Option, none, some, if◌then◌else◌, ok, err, or_fail, ◌>>=◌}
use keyrus.Base.Text.{Text, codes}
use keyrus.Base.Date.{Date, before, minus_days, parse}
use keyrus.Ledger.Errors.{Fallible, invalid_business_date, invalid_time_zone}
use keyrus.Ledger.Entry.{is_empty}

abbrev pub maximum_backdate_days : ℕ
maximum_backdate_days = 30

abbrev pub default_merchant_zone : Text
default_merchant_zone = codes "America/Fortaleza"

-- A location: the date that its clocks show at an instant.
abbrev pub Location : Type 0
Location = ℕ → Date

-- `ParseBusinessDate`
unfoldable pub parse_business_date : Text → Fallible Date
parse_business_date value = or_fail (parse value) invalid_business_date

-- `NewCalendar`, where `load` is `time.LoadLocation` over the installed time zones
unfoldable pub new_calendar : (Text → Option Location) → Text → Fallible Location
new_calendar load zone =
    or_fail (load (if is_empty zone then default_merchant_zone else zone)) invalid_time_zone

-- the test of `Resolve` on a requested date
abbrev pub is_outside : Date → Date → Bool
is_outside today requested =
    before requested (minus_days maximum_backdate_days today) || before today requested

-- `Calendar.Resolve`, with `Today` in it
unfoldable pub resolve : Location → ℕ → Option Date → Fallible Date
resolve location now none = ok (location now)
resolve location now (some requested) =
    if is_outside (location now) requested then err invalid_business_date else ok requested
