-- ===== src/Consolidation/Answer.antt =====
-- services/consolidation/internal/application/query.go: GetDailyBalances.
pub mod Complete
use keyrus.Base.{
  ℕ, zero, suc, ◌+◌, ◌-◌, Bool, true, false, ◌&&◌, Option, none, some, List, [], ◌∷◌, ◌==◌,
  if◌then◌else◌, Result, ok, err, ◌>>=◌,
}
use keyrus.Base.Int.{ℤ}
use keyrus.Base.Text.{Text, lower}
use keyrus.Base.Decimal.{print_int}
use keyrus.Consolidation.Event.{Failure, other_error}
use keyrus.Consolidation.Query.{MerchantProgress, Classification, classify}
use keyrus.Consolidation.Days.{Day, row_at}
use keyrus.Consolidation.Projection.{Projection, has_pending_recompute}
use keyrus.Consolidation.Store.{read_balances, read_progress}

-- `DailyBalanceData`
pub record DayData : Type 0 where
  pub credits : Text
  pub debits : Text
  pub net : Text
  pub entry_count : ℕ
  pub closing_balance : Text
  pub snapshot_at : ℕ

-- `DailyBalance` of the answer; its date is printed from the day number
pub record DayAnswer : Type 0 where
  pub business_day : ℕ
  pub classification : Classification
  pub shown : Option DayData

abbrev pub no_answer : MerchantProgress
no_answer = record { source_position = 0; applied_position = 0; first_gap = none; updated_at = 0 }

abbrev pub progress_or_none : Result Failure MerchantProgress → MerchantProgress
progress_or_none (err f) = no_answer
progress_or_none (ok p) = p

abbrev pub data_of : ℕ → MerchantProgress → Option Day → Option DayData
data_of now p none = none
data_of now p (some r) = some (record {
  credits = print_int r.credits;
  debits = print_int r.debits;
  net = print_int r.net;
  entry_count = r.entry_count;
  closing_balance = print_int r.closing;
  snapshot_at = if p.updated_at == 0 then now else p.updated_at;
})

-- the loop over the days, `n` of them from `d` on
unfoldable pub answer_days :
    ℕ → MerchantProgress → Classification → List Day → ℕ → ℕ → List DayAnswer
unfolding row_at print_int
answer_days now p c rows zero d = []
answer_days now p c rows (suc n) d =
    record { business_day = d; classification = c; shown = data_of now p (row_at d rows) }
    ∷ answer_days now p c rows n (d + 1)

abbrev pub is_unknown : Option (ℕ × ℕ) → List Day → MerchantProgress → Bool
is_unknown none [] p = p.updated_at == 0
is_unknown none (r ∷ rs) p = false
is_unknown (some w) rows p = false

-- `GetDailyBalances`: its three reads are statements of their own, and each one sees the tables as they
-- are by then. `watermark` is what the Ledger answers.
unfoldable pub get_daily_balances :
    Option (ℕ × ℕ)
    → ℕ
    → Text
    → ℕ
    → ℕ
    → Projection
    → Projection
    → Projection
    → Result Failure (List DayAnswer)
unfolding read_balances read_progress has_pending_recompute classify answer_days
get_daily_balances watermark now m from through at_balances at_progress at_jobs = do
  rows ← read_balances m from through at_balances
  let p : MerchantProgress = progress_or_none (read_progress m at_progress)
  let c : Classification = classify p (has_pending_recompute (lower m) at_jobs) watermark now
  (if is_unknown watermark rows p
      then err other_error
      else ok (answer_days now p c rows (through + 1 - from) from))
