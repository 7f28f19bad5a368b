-- ===== src/Consolidation/Days.antt =====
-- The rows of consolidation.daily_balance of one merchant, by ascending date, and the statements of
-- services/consolidation/internal/adapters/outbound/postgres/store.go on them. Dates are day numbers.
pub mod Closing
pub mod Fill
pub mod Totals
pub mod Keeps
use keyrus.Base.{
  ℕ, zero, suc, ◌+◌, ◌-◌, min, Bool, true, false, not, ◌&&◌, ◌||◌, Option, none, some, List, [],
  ◌∷◌, ltb, leb, ◌==◌, if◌then◌else◌, all, Result, ok, err,
}
use keyrus.Base.Int.{ℤ, pos, ◌+ℤ◌, ◌-ℤ◌, is_int64, max_int64, leb_ℤ, eqb_ℤ}
use keyrus.Consolidation.Event.{Effect, Failure, conflict_error}

-- `DailyBalance`, without the merchant
pub record Day : Type 0 where
  pub date : ℕ
  pub credits : ℤ
  pub debits : ℤ
  pub net : ℤ
  pub entry_count : ℕ
  pub closing : ℤ
  pub version : ℕ

-- the row that an effect inserts: its closing balance is its net
abbrev pub first_row : ℕ → Effect → Day
first_row d f = record {
  date = d;
  credits = f.credits;
  debits = f.debits;
  net = f.net;
  entry_count = 1;
  closing = f.net;
  version = 1;
}

unfoldable pub add_effect : Effect → Day → Day
unfolding ◌+ℤ◌
add_effect f r = record r {
  credits = r.credits +ℤ f.credits;
  debits = r.debits +ℤ f.debits;
  net = r.net +ℤ f.net;
  entry_count = r.entry_count + 1;
  version = r.version + 1;
}

-- `INSERT ... ON CONFLICT (merchant_id, business_date) DO UPDATE` of the daily totals
unfoldable pub upsert_totals : ℕ → Effect → List Day → List Day
unfolding add_effect
upsert_totals d f [] = first_row d f ∷ []
upsert_totals d f (r ∷ rs) =
    let rest = upsert_totals d f rs in
    if r.date == d
    then add_effect f r ∷ rs
    else if ltb d r.date
    then first_row d f ∷ r ∷ rs
    else r ∷ rest

unfoldable pub row_at : ℕ → List Day → Option Day
row_at d [] = none
row_at d (r ∷ rs) = let rest = row_at d rs in if r.date == d then some r else rest

abbrev pub fits_row : Option Day → Bool
fits_row none = true
fits_row (some r) =
    is_int64 r.credits
    && (is_int64 r.debits
        && (is_int64 r.net
            && (leb r.entry_count max_int64
                && (leb r.version max_int64
                    && (leb_ℤ (pos 0) r.credits
                        && (leb_ℤ (pos 0) r.debits && eqb_ℤ r.net (r.credits -ℤ r.debits)))))))

-- The totals of a day with one more effect, where they stay within bigint columns and meet the checks of the table.
unfoldable pub add_totals : ℕ → Effect → List Day → Result Failure (List Day)
unfolding upsert_totals row_at ◌-ℤ◌
add_totals d f rows =
    let rows' = upsert_totals d f rows in
    if fits_row (row_at d rows') then ok rows' else err conflict_error

-- `SELECT MAX(business_date)`
unfoldable pub latest_date : ℕ → List Day → ℕ
latest_date d [] = d
latest_date d (r ∷ rs) = latest_date r.date rs

abbrev pub empty_row : ℕ → Day
empty_row d = record {
  date = d;
  credits = pos 0;
  debits = pos 0;
  net = pos 0;
  entry_count = 0;
  closing = pos 0;
  version = 1;
}

unfoldable pub insert_missing : ℕ → List Day → List Day
insert_missing d [] = empty_row d ∷ []
insert_missing d (r ∷ rs) =
    let rest = insert_missing d rs in
    if r.date == d then r ∷ rs else if ltb d r.date then empty_row d ∷ r ∷ rs else r ∷ rest

-- the days of `generate_series`, `n` of them from `d` on
unfoldable pub materialize : ℕ → ℕ → List Day → List Day
unfolding insert_missing
materialize zero d rows = rows
materialize (suc n) d rows = materialize n (d + 1) (insert_missing d rows)

-- the common table expression `baseline`: the closing balance of the last row before a date
unfoldable pub baseline : ℕ → ℤ → List Day → ℤ
baseline next acc [] = acc
baseline next acc (r ∷ rs) =
    let rest = baseline next r.closing rs in if ltb r.date next then rest else acc

abbrev pub close_row : ℤ → Day → Day
close_row closing r =
    if eqb_ℤ r.closing closing then r else record r { closing = closing; version = r.version + 1 }

-- `running` and the UPDATE: the rows from `next` through `through` get their running balance
unfoldable pub run_balances : ℕ → ℕ → ℤ → List Day → List Day
unfolding ◌+ℤ◌
run_balances next through acc [] = []
run_balances next through acc (r ∷ rs) =
    let before = run_balances next through acc rs in
    let within = run_balances next through (acc +ℤ r.net) rs in
    if ltb r.date next
    then r ∷ before
    else if leb r.date through
    then close_row (acc +ℤ r.net) r ∷ within
    else r ∷ before

abbrev pub closing_fits : ℕ → ℕ → Day → Bool
closing_fits next through r = (ltb r.date next || ltb through r.date) || is_int64 r.closing

-- The three statements of `processRecomputeBlock` on the balances.
unfoldable pub recompute_days : ℕ → ℕ → List Day → Result Failure (List Day)
unfolding materialize baseline run_balances
recompute_days next through rows =
    let filled = materialize (through + 1 - next) next rows in
    let closed = run_balances next through (baseline next (pos 0) filled) filled in
    if all (closing_fits next through) closed then ok closed else err conflict_error
