-- ===== src/Consolidation/Tests/Answered.antt =====
-- The answer for one day with one event.
use keyrus.Base.{none, ℕ, ◌≤◌, ◌≡◌, refl, true, some, List, [], ◌∷◌, Option, ok, arith, All, any}
use keyrus.Base.Text.{codes, lower}
use keyrus.Consolidation.Query.{state_updated, no_reason}
use keyrus.Consolidation.Answer.{DayData, DayAnswer, get_daily_balances}
use keyrus.Consolidation.Answer.Complete.{Spells, get_daily_balances_complete}
use keyrus.Consolidation.Store.Refines.{inbox_sums}
use keyrus.Consolidation.Store.Gaps.{is_received}
use keyrus.Consolidation.Store.Runs.{no_tables, after_calls-IsProjected, after_calls-IsTracked}
use keyrus.Consolidation.Tests.Projections.{platform, merchant, credit, apply_of, sold, tenth}

abbrev tenth_data : DayData
tenth_data = record {
  credits = codes "1250";
  debits = codes "0";
  net = codes "1250";
  entry_count = 1;
  closing_balance = codes "1250";
  snapshot_at = 5;
}

abbrev answers : List DayAnswer
answers =
    record {
      business_day = tenth;
      classification = record {
        state = state_updated;
        reason = no_reason;
        definitive = true;
        source_position = 1;
        applied_position = 1;
      };
      shown = some tenth_data;
    }
    ∷ []

sold-answers : get_daily_balances (some (1, 7)) 9 merchant tenth tenth sold sold sold ≡ ok answers
unfolding get_daily_balances keyrus.Consolidation.Store.Runs.after_calls keyrus.Base.Pattern.matches
    keyrus.Base.Decimal.print_nat keyrus.Base.Decimal.pad2
sold-answers = refl

get_daily_balances_example :
    ((q : ℕ) → 1 ≤ q → q ≤ 1 → is_received (lower merchant) q sold.receipts ≡ true)
    × All
        (λ (a : DayAnswer). Spells a.shown (inbox_sums (lower merchant) a.business_day sold.inbox))
        answers
get_daily_balances_example =
    get_daily_balances_complete 1 7 9 merchant tenth tenth sold sold sold answers
      (after_calls-IsProjected platform (apply_of credit ∷ []))
      (after_calls-IsTracked platform (apply_of credit ∷ [])) sold-answers refl

-- The event is applied after the balances are read and before the progress is: the answer is definitive
-- and has no data.
overtaken-answer :
    get_daily_balances (some (1, 7)) 9 merchant tenth tenth no_tables sold sold
    ≡ ok (
        record {
          business_day = tenth;
          classification = record {
            state = state_updated;
            reason = no_reason;
            definitive = true;
            source_position = 1;
            applied_position = 1;
          };
          shown = none;
        }
        ∷ [])
unfolding get_daily_balances keyrus.Consolidation.Store.Runs.after_calls keyrus.Base.Pattern.matches
    keyrus.Base.Decimal.print_nat keyrus.Base.Decimal.pad2
overtaken-answer = refl
