-- ===== src/Consolidation/Tests/Projections.antt =====
-- Runs of the store on the events of one merchant.
use keyrus.Base.{
  ℕ, ◌+◌, ◌*◌, ◌≡◌, ◌<◌, ◌⊎◌, inl, inr, refl, sym, ap, ◌∙◌, subst, Bool, true, false, Option, none,
  some, List, [], ◌∷◌, ok, err, Result, arith, if◌then◌else◌,
}
use keyrus.Base.Int.{ℤ, pos}
use keyrus.Base.Text.{Text, codes, lower, text_eq, text_eq_refl}
use keyrus.Consolidation.Event.{
  EntryConfirmed, Failure, Identifier, the_event, the_merchant, the_entry, entry_confirmed_v1,
  conflict_error, canonical, validate, financial_effect,
}
use keyrus.Consolidation.Query.{MerchantProgress}
use keyrus.Consolidation.Projection.{
  Job, Projection, ProjectionResult, StorePlatform, has_pending_recompute,
}
use keyrus.Consolidation.Days.{Day, first_row}
use keyrus.Consolidation.Event.Fingerprint.{fingerprint_bytes}
use keyrus.Consolidation.Store.Queue.{pending_jobs}
use keyrus.Consolidation.Store.{
  apply, resume_next, read_balance, none_recomputed, inbox_row, fingerprint, new_job,
  count_recomputes,
}
use keyrus.Consolidation.Store.Resumed.{resumes, resumes-IsSettled}
use keyrus.Consolidation.Store.Closings.{net_through, read_balance-closing}
use keyrus.Consolidation.Store.Conflicts.{apply_conflict}
use mathlib.Core.List.Memᴰ.{head}
use keyrus.Consolidation.Store.Runs.{
  Call, apply_call, resume_call, after_calls, no_tables, after_calls-IsProjected,
  after_calls-IsTracked, after_calls_order, applied_once, after_calls_recomputes,
}
use keyrus.Consolidation.Store.Refines.{IsProjected}
use keyrus.Consolidation.Store.Gaps.{IsTracked}
use keyrus.Consolidation.Store.Settled.{IsSettled, IsCatching, apply-IsSettled}
use keyrus.Consolidation.Days.Totals.{totals_at}
use mathlib.Core.List.{Perm}
use mathlib.Core.List.Perm

abbrev pub platform : StorePlatform
platform = record { sha256_hex = λ s. s; print_time = λ t. t ∷ []; now = 5 }

abbrev order : List Identifier
order = the_merchant ∷ the_event ∷ the_entry ∷ []

abbrev pub merchant : Text
merchant = codes "0195a1b2-c3d4-7e5f-8a9b-0c1d2e3f4a5b"

-- a credit of the tenth of March, at position 1
abbrev pub credit : EntryConfirmed
credit = record {
  event_id = codes "0195a1b2-c3d4-7e5f-8a9b-000000000001";
  event_type = entry_confirmed_v1;
  occurred_at = 1000;
  merchant_id = merchant;
  merchant_position = pos 1;
  entry_id = codes "0195a1b2-c3d4-7e5f-8a9b-000000000002";
  entry_type = codes "credit";
  amount_minor = pos 1250;
  currency = codes "BRL";
  business_date = record { year = 2026; month = 3; day = 10 };
  confirmed_at = 1000;
  original_entry_id = none;
  traceparent = codes "00-4bf92f3577b34da6a3ce929d0e0e4736-00f067aa0ba902b7-01";
}

-- a debit of the eighth of March, at position 2
abbrev debit : EntryConfirmed
debit = record credit {
  event_id = codes "0195a1b2-c3d4-7e5f-8a9b-000000000003";
  merchant_position = pos 2;
  entry_id = codes "0195a1b2-c3d4-7e5f-8a9b-000000000004";
  entry_type = codes "debit";
  amount_minor = pos 300;
  business_date = record { year = 2026; month = 3; day = 8 };
}

-- a credit of the first of February, at position 2
abbrev old_credit : EntryConfirmed
old_credit = record debit {
  entry_type = codes "credit";
  business_date = record { year = 2026; month = 2; day = 1 };
}

abbrev pub apply_of : EntryConfirmed → Call
apply_of e = apply_call true order e

credit_valid : validate order credit ≡ ok tt
unfolding validate keyrus.Base.Pattern.matches
credit_valid = refl

abbrev pub sold : Projection
sold = after_calls platform (apply_of credit ∷ []) no_tables

abbrev expected : ℕ → ℕ → ℕ → Bool → ProjectionResult
expected position day through pending = record {
  is_duplicate = false;
  source_position = position;
  applied_position = position;
  first_gap = none;
  recomputed_from = day;
  recomputed_through = through;
  recompute_pending = pending;
}

abbrev pub tenth : ℕ
tenth = 740050

sold_run : apply platform true order credit no_tables ≡ (ok (expected 1 tenth tenth false), sold)
unfolding apply after_calls keyrus.Base.Pattern.matches keyrus.Base.Decimal.print_nat
    keyrus.Base.Decimal.pad2
sold_run = refl

no_tables-IsSettled : IsSettled (canonical credit).merchant_id no_tables
unfolding keyrus.Consolidation.Store.Queue.pending_jobs
no_tables-IsSettled = record { queued = tt; free = refl; ascending = tt; closed = tt }

outcome-IsSettled :
    (m : Text) (t : Projection)
    → ((false ≡ false) × IsSettled m t) ⊎ ((false ≡ true) × (k : Job) × IsCatching m k t)
    → IsSettled m t
outcome-IsSettled m t (inl (_, settled)) = settled
outcome-IsSettled m t (inr (pending, job, rest)) = absurd (cc (pending))

outcome-IsCatching :
    (m : Text) (t : Projection)
    → ((true ≡ false) × IsSettled m t) ⊎ ((true ≡ true) × (k : Job) × IsCatching m k t)
    → (k : Job) × IsCatching m k t
outcome-IsCatching m t (inl (pending, rest)) = absurd (cc (pending))
outcome-IsCatching m t (inr (_, job, caught)) = (job, caught)

sold-IsSettled : IsSettled (canonical credit).merchant_id sold
unfolding keyrus.Base.Date.days_in
sold-IsSettled = outcome-IsSettled (canonical credit).merchant_id sold (
    apply-IsSettled platform true order credit no_tables sold (expected 1 tenth tenth false)
      sold_run refl refl (omega arith) no_tables-IsSettled)

-- the tables with a recompute of 38 days under way
abbrev behind : Projection
behind = (apply platform true order old_credit sold).1

abbrev first_of_february : ℕ
first_of_february = 740013

behind_run :
    apply platform true order old_credit sold
    ≡ (ok (expected 2 first_of_february (first_of_february + 30) true), behind)
unfolding apply after_calls keyrus.Base.Pattern.matches keyrus.Base.Decimal.print_nat
    keyrus.Base.Decimal.pad2
behind_run = refl

apply-IsSettled_example :
    ((true ≡ false) × IsSettled (canonical old_credit).merchant_id behind)
    ⊎ ((true ≡ true) × (k : Job) × IsCatching (canonical old_credit).merchant_id k behind)
unfolding keyrus.Base.Date.days_in canonical
apply-IsSettled_example =
    apply-IsSettled platform true order old_credit sold behind
      (expected 2 first_of_february (first_of_february + 30) true) behind_run refl refl
      (omega arith) sold-IsSettled

after_calls-IsProjected_example :
    IsProjected (after_calls platform (apply_of credit ∷ apply_of debit ∷ []) no_tables)
after_calls-IsProjected_example =
    after_calls-IsProjected platform (apply_of credit ∷ apply_of debit ∷ [])

after_calls-IsTracked_example :
    IsTracked (after_calls platform (apply_of debit ∷ apply_of credit ∷ []) no_tables)
after_calls-IsTracked_example =
    after_calls-IsTracked platform (apply_of debit ∷ apply_of credit ∷ [])

same_events :
    Perm
      (after_calls platform (apply_of credit ∷ apply_of debit ∷ []) no_tables).inbox
      (after_calls platform (apply_of debit ∷ apply_of credit ∷ []) no_tables).inbox
unfolding apply after_calls keyrus.Base.Pattern.matches keyrus.Base.Decimal.print_nat
    keyrus.Base.Decimal.pad2
same_events = Perm.swap _ _ []

after_calls_order_example :
    totals_at 740048
      ((after_calls platform (apply_of credit ∷ apply_of debit ∷ []) no_tables).balances merchant)
    ≡ totals_at 740048
        ((after_calls platform (apply_of debit ∷ apply_of credit ∷ []) no_tables).balances merchant)
after_calls_order_example =
    after_calls_order platform (apply_of credit ∷ apply_of debit ∷ [])
      (apply_of debit ∷ apply_of credit ∷ []) same_events merchant 740048

applied_once_example :
    (p : MerchantProgress) × ((after_calls platform (apply_of debit ∷ []) sold).progress
        (canonical credit).merchant_id
      ≡ some p)
    × (apply platform true order credit (after_calls platform (apply_of debit ∷ []) sold) ≡ (
      ok (
          none_recomputed p true (
            has_pending_recompute
              (canonical credit).merchant_id
              (after_calls platform (apply_of debit ∷ []) sold))),
      after_calls platform (apply_of debit ∷ []) sold,
    ))
applied_once_example =
    applied_once platform true order order credit no_tables sold (expected 1 tenth tenth false)
      (apply_of debit ∷ []) sold_run refl credit_valid

-- the pending job of those tables
abbrev february_job : Job
february_job = record (new_job (canonical old_credit) 2 first_of_february tenth) {
  next_date = first_of_february + 31;
}

behind_jobs : pending_jobs merchant behind.jobs ≡ february_job ∷ []
unfolding apply pending_jobs after_calls keyrus.Base.Pattern.matches keyrus.Base.Decimal.print_nat
    keyrus.Base.Decimal.pad2
behind_jobs = refl

first_of : (a b : Job) → ◌≡◌ {A = List Job} (a ∷ []) (b ∷ []) → a ≡ b
first_of a b h = ground (arith, h)

behind-IsCatching : IsCatching merchant february_job behind
unfolding keyrus.Base.Date.days_in canonical
behind-IsCatching =
    let (k, caught) = outcome-IsCatching merchant behind (
      apply-IsSettled platform true order old_credit sold behind
        (expected 2 first_of_february (first_of_february + 30) true) behind_run refl refl
        (omega arith) sold-IsSettled) in
    subst (λ (j : Job). IsCatching merchant j behind)
      (first_of k february_job (sym caught.only ∙ behind_jobs)) caught

resumes-IsSettled_example :
    ((u : Projection) × (resumes 1 merchant behind ≡ ok u) × IsSettled (lower merchant) u)
    ⊎ (resumes 1 merchant behind ≡ err conflict_error)
resumes-IsSettled_example =
    resumes-IsSettled 1 merchant february_job behind behind-IsCatching (omega arith)

abbrev tenth_row : Day
tenth_row = record (first_row tenth (financial_effect credit)) { closing = pos 1250 }

sold_row : read_balance merchant tenth sold ≡ ok tenth_row
unfolding read_balance financial_effect after_calls keyrus.Base.Pattern.matches
    keyrus.Base.Decimal.print_nat keyrus.Base.Decimal.pad2
sold_row = refl

read_balance-closing_example : tenth_row.closing ≡ net_through merchant tenth sold.inbox
unfolding canonical
read_balance-closing_example =
    read_balance-closing merchant tenth sold tenth_row
      (after_calls-IsProjected platform (apply_of credit ∷ [])) sold-IsSettled sold_row

-- another amount under the identifiers of the credit
abbrev reused : EntryConfirmed
reused = record credit { amount_minor = pos 1251 }

reused_valid : validate order reused ≡ ok tt
unfolding validate keyrus.Base.Pattern.matches
reused_valid = refl

reused_prints :
    text_eq
      (inbox_row platform (canonical credit)).payload_fingerprint
      (fingerprint platform (canonical reused))
    ≡ false
unfolding canonical fingerprint_bytes keyrus.Base.Decimal.print_nat keyrus.Base.Decimal.pad2
reused_prints = refl

apply_conflict_example : apply platform true order reused sold ≡ (err conflict_error, sold)
unfolding canonical after_calls keyrus.Base.Pattern.matches keyrus.Base.Decimal.print_nat
    keyrus.Base.Decimal.pad2
apply_conflict_example =
    apply_conflict platform true order reused sold (inbox_row platform (canonical credit))
      reused_valid (head refl) (inl refl)
      (
        λ owner position same. absurd (
            cc (
              sym reused_prints
              ∙ ap (λ x. text_eq x (fingerprint platform (canonical reused))) same
              ∙ text_eq_refl (fingerprint platform (canonical reused)))),
        tt,
      )

after_calls_recomputes_example :
    count_recomputes
      (after_calls platform (apply_of credit ∷ apply_of old_credit ∷ []) no_tables).jobs
    ≡ 0
after_calls_recomputes_example =
    after_calls_recomputes platform (apply_of credit ∷ apply_of old_credit ∷ [])

-- A later event, while the recompute of February is pending.
abbrev later_credit : EntryConfirmed
later_credit = record credit {
  event_id = codes "0195a1b2-c3d4-7e5f-8a9b-000000000005";
  merchant_position = pos 3;
  entry_id = codes "0195a1b2-c3d4-7e5f-8a9b-000000000006";
  amount_minor = pos 50;
  business_date = record { year = 2026; month = 3; day = 20 };
}

-- The calls of the recompute end, none is pending, and the closing balance of the twentieth has 1300
-- where the events add up to 1600.
abbrev overtaken : Projection
overtaken =
    after_calls platform
      (apply_of credit
        ∷ apply_of old_credit
        ∷ apply_of later_credit
        ∷ resume_call true merchant
        ∷ resume_call true merchant
        ∷ [])
      no_tables

abbrev closing_of : Result Failure Day → ℤ
closing_of (err f) = pos 0
closing_of (ok r) = r.closing

overtaken_closing : closing_of (read_balance merchant (tenth + 10) overtaken) ≡ pos 1300
unfolding read_balance after_calls keyrus.Base.Pattern.matches keyrus.Base.Decimal.print_nat
    keyrus.Base.Decimal.pad2
overtaken_closing = refl

overtaken_net : net_through merchant (tenth + 10) overtaken.inbox ≡ pos 1600
unfolding net_through after_calls keyrus.Base.Pattern.matches keyrus.Base.Decimal.print_nat
    keyrus.Base.Decimal.pad2
overtaken_net = refl

overtaken_idle : has_pending_recompute merchant overtaken ≡ false
unfolding has_pending_recompute after_calls keyrus.Base.Pattern.matches
    keyrus.Base.Decimal.print_nat keyrus.Base.Decimal.pad2
overtaken_idle = refl
