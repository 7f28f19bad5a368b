-- ===== src/Consolidation/Tests/Reconciled.antt =====
-- Runs of the reconciliation of a day with one event.
use keyrus.Base.{
  ℕ, ◌≡◌, ◌≤◌, ◌↔◌, refl, Bool, true, false, Option, none, some, List, [], ◌∷◌, ◌==◌, ok, Result,
  arith, if◌then◌else◌,
}
use keyrus.Base.Int.{pos, ◌-ℤ◌}
use keyrus.Base.Text.{Text, codes}
use keyrus.Base.Date.{Date}
use keyrus.Consolidation.Event.{
  EntryConfirmed, the_event, the_merchant, the_entry, entry_confirmed_v1,
}
use keyrus.Consolidation.Projection.{Projection, StorePlatform}
use keyrus.Consolidation.Store.Refines.{inbox_sums}
use keyrus.Consolidation.Store.Runs.{apply_call, after_calls, no_tables, after_calls-IsProjected}
use keyrus.Consolidation.Reconciliation.{
  Received, entry, broken, StreamAttempt, Source, ReconcileResult, Run, RunTable, compare_day,
  stream_source, reconcile, projected_ids, has_id,
}
use keyrus.Consolidation.Reconciliation.Counts.{occurrences}
use keyrus.Consolidation.Reconciliation.Converged.{compare_day-converged}
use keyrus.Consolidation.Reconciliation.Runs.{
  IsNewer, reconcile-IsNewer, SameCounts, reconcile_again,
}

abbrev merchant : Text
merchant = codes "0195a1b2-c3d4-7e5f-8a9b-0c1d2e3f4a5b"

abbrev sale_id : Text
sale_id = codes "0195a1b2-c3d4-7e5f-8a9b-000000000002"

abbrev tenth : Date
tenth = record { year = 2026; month = 3; day = 10 }

abbrev tenth_day : ℕ
tenth_day = 740050

abbrev sale : EntryConfirmed
sale = record {
  event_id = codes "0195a1b2-c3d4-7e5f-8a9b-000000000001";
  event_type = entry_confirmed_v1;
  occurred_at = 1000;
  merchant_id = merchant;
  merchant_position = pos 1;
  entry_id = sale_id;
  entry_type = codes "credit";
  amount_minor = pos 1250;
  currency = codes "BRL";
  business_date = tenth;
  confirmed_at = 1000;
  original_entry_id = none;
  traceparent = codes "00-4bf92f3577b34da6a3ce929d0e0e4736-00f067aa0ba902b7-01";
}

abbrev platform : StorePlatform
platform = record { sha256_hex = λ s. s; print_time = λ t. t ∷ []; now = 5 }

abbrev sold : Projection
sold =
    after_calls platform (apply_call true (the_merchant ∷ the_event ∷ the_entry ∷ []) sale ∷ [])
      no_tables

abbrev streamed : Received
streamed = entry (record {
  entry_id = sale_id;
  business_date = codes "2026-03-10";
  kind = 1;
  amount_minor = pos 1250;
})

-- the first stream breaks after the entry, the second one is whole
abbrev attempts : List StreamAttempt
attempts =
    record { stream = some (streamed ∷ broken ∷ []); is_done = false }
    ∷ record { stream = some (streamed ∷ []); is_done = false }
    ∷ []

abbrev read_once : Source
read_once = record { ids = sale_id ∷ []; credits = pos 1250; debits = pos 0 }

streams_afresh : stream_source 3 (codes "2026-03-10") attempts ≡ some read_once
unfolding stream_source
streams_afresh = refl

compare_converged_example :
    (((compare_day merchant tenth_day 1 read_once sold).missing_entries ≡ 0)
      × ((compare_day merchant tenth_day 1 read_once sold).extra_entries ≡ 0)
      × ((compare_day merchant tenth_day 1 read_once sold).duplicated_entries ≡ 0)
      × ((compare_day merchant tenth_day 1 read_once sold).financial_difference ≡ pos 0))
    ↔ (((id : Text)
          → occurrences id (projected_ids merchant tenth_day 1 sold.inbox)
            ≡ (if has_id id read_once.ids then 1 else 0))
        × ((inbox_sums merchant tenth_day sold.inbox).credits
              -ℤ (inbox_sums merchant tenth_day sold.inbox).debits
            ≡ read_once.credits -ℤ read_once.debits))
unfolding inbox_sums ◌-ℤ◌ after_calls keyrus.Base.Pattern.matches keyrus.Base.Decimal.print_nat
    keyrus.Base.Decimal.pad2
compare_converged_example =
    compare_day-converged merchant tenth_day 1 read_once sold
      (after_calls-IsProjected platform
        (apply_call true (the_merchant ∷ the_event ∷ the_entry ∷ []) sale ∷ []))
      (refl, refl, refl)

abbrev no_runs : RunTable
no_runs = λ m d. none

abbrev converged : ReconcileResult
converged = record {
  missing_entries = 0;
  extra_entries = 0;
  duplicated_entries = 0;
  financial_difference = pos 0;
  is_skipped = false;
}

abbrev reconciled : RunTable
reconciled = (reconcile true attempts merchant tenth 1 sold no_runs).1

reconcile_run : reconcile true attempts merchant tenth 1 sold no_runs ≡ (ok converged, reconciled)
unfolding reconcile after_calls keyrus.Base.Pattern.matches keyrus.Base.Decimal.print_nat
    keyrus.Base.Decimal.pad2
reconcile_run = refl

reconcile_again_example :
    (again : ReconcileResult) × (reconcile true [] merchant tenth 1 no_tables reconciled
      ≡ (ok again, reconciled))
    × SameCounts again converged
    × (again.is_skipped ≡ true)
reconcile_again_example =
    reconcile_again true true attempts [] merchant tenth 1 1 sold no_tables no_runs reconciled
      converged reconcile_run (omega arith)

abbrev first_run : Run
first_run = record { cut = 1; outcome = converged }

reconciled_row : reconciled merchant tenth_day ≡ some first_run
unfolding reconcile after_calls keyrus.Base.Pattern.matches keyrus.Base.Decimal.print_nat
    keyrus.Base.Decimal.pad2
reconciled_row = refl

reconcile-IsNewer_example :
    (new : Run) × ((reconcile true attempts merchant tenth 2 sold reconciled).1 merchant tenth_day
      ≡ some new)
    × IsNewer 2 first_run new
reconcile-IsNewer_example =
    reconcile-IsNewer true attempts merchant tenth 2 sold reconciled merchant tenth_day first_run
      reconciled_row

-- Another event of that day at position 2: nothing is missing or extra at the cut 1, and yet the
-- difference is its amount.
abbrev second : EntryConfirmed
second = record sale {
  event_id = codes "0195a1b2-c3d4-7e5f-8a9b-000000000003";
  merchant_position = pos 2;
  entry_id = codes "0195a1b2-c3d4-7e5f-8a9b-000000000004";
  amount_minor = pos 300;
}

abbrev both : Projection
both =
    after_calls platform
      (apply_call true (the_merchant ∷ the_event ∷ the_entry ∷ []) sale
        ∷ apply_call true (the_merchant ∷ the_event ∷ the_entry ∷ []) second
        ∷ [])
      no_tables

beyond_the_cut :
    compare_day merchant tenth_day 1 read_once both
    ≡ record converged { financial_difference = pos 300 }
unfolding compare_day after_calls keyrus.Base.Pattern.matches keyrus.Base.Decimal.print_nat
    keyrus.Base.Decimal.pad2
beyond_the_cut = refl
