-- ===== src/Consolidation/Store.antt =====
-- services/consolidation/internal/adapters/outbound/postgres/store.go: the operations of the store.
-- A transaction that fails anywhere leaves the tables as they were; `works` is false for one that
-- PostgreSQL fails for a reason of its own, up to its commit.
pub mod Steps
pub mod Calls
pub mod Gaps
pub mod Once
pub mod Conflicts
pub mod Queue
pub mod Refines
pub mod Settled
pub mod Closings
pub mod Resumed
pub mod Runs
use keyrus.Base.{
  ℕ, zero, suc, ◌+◌, ◌-◌, min, Bool, true, false, not, ◌&&◌, ◌||◌, Option, none, some, List, [],
  ◌∷◌, ltb, leb, ◌==◌, if◌then◌else◌, any, all, find, Result, ok, err, ◌>>=◌, or_fail,
}
use keyrus.Base.Text.{Text, text_eq, lower}
use keyrus.Base.Date.{Date, format, parse}
use keyrus.Base.Date.Number.{day_number}
use keyrus.Consolidation.Event.{
  EntryConfirmed, Field, business_date, Identifier, Failure, validation_error, conflict_error,
  other_error, financial_effect, validate, canonical,
}
use keyrus.Consolidation.Event.Fingerprint.{fingerprint_bytes}
use keyrus.Consolidation.Query.{MerchantProgress}
use keyrus.Consolidation.Days.{Day, add_totals, latest_date, row_at}
use keyrus.Consolidation.Projection.{
  Projection, ProjectionResult, RecomputeResult, StorePlatform, InboxRow, Job, JobStatus,
  job_pending, position_of, inbox_conflicts, conflicting_row, same_content, init_progress,
  has_pending_recompute, is_pending_of, is_running_or_failed, add_receipt, advance, process_block,
  update,
}

abbrev pub none_recomputed : MerchantProgress → Bool → Bool → ProjectionResult
none_recomputed p duplicate pending = record {
  is_duplicate = duplicate;
  source_position = p.source_position;
  applied_position = p.applied_position;
  first_gap = p.first_gap;
  recomputed_from = 0;
  recomputed_through = 0;
  recompute_pending = pending;
}

abbrev pub fingerprint : StorePlatform → EntryConfirmed → Text
fingerprint s e = s.sha256_hex (fingerprint_bytes s.print_time e)

-- `resolveDuplicate`
unfoldable pub resolve_duplicate :
    StorePlatform → EntryConfirmed → Projection → Result Failure ProjectionResult
unfolding has_pending_recompute fingerprint_bytes
resolve_duplicate s e t = do
  r ← or_fail (conflicting_row e t.inbox) other_error
  p ←
      (if same_content (fingerprint s e) e r
        then or_fail (t.progress e.merchant_id) other_error
        else err conflict_error)
  ok (none_recomputed p true (has_pending_recompute e.merchant_id t))

abbrev pub inbox_row : StorePlatform → EntryConfirmed → InboxRow
inbox_row s e = record {
  event = e;
  payload_fingerprint = fingerprint s e;
  business_day = day_number e.business_date;
}

abbrev pub new_job : EntryConfirmed → ℕ → ℕ → ℕ → Job
new_job e id from through = record {
  id = id;
  event_id = e.event_id;
  merchant_id = e.merchant_id;
  from_date = from;
  through_date = through;
  next_date = from;
  status = job_pending;
  attempts = 1;
}

-- `from, err := time.Parse(domain.DateLayout, ...)`
abbrev pub read_day : Date → Result Failure ℕ
read_day d = do
  date ← or_fail (parse (format d)) (validation_error business_date)
  ok (day_number date)

-- the tables with the inbox row, the receipt and the totals of a new event
abbrev pub with_totals : StorePlatform → EntryConfirmed → Projection → Result Failure Projection
with_totals s e t = do
  receipts ← add_receipt e t.receipts
  days ← add_totals (day_number e.business_date) (financial_effect e) (t.balances e.merchant_id)
  ok (record t {
    inbox = inbox_row s e ∷ t.inbox;
    receipts = receipts;
    balances = update t.balances e.merchant_id days;
  })

-- the job of a new event and its first block
abbrev pub start_recompute :
    EntryConfirmed → ℕ → Projection → Result Failure (RecomputeResult × Projection)
start_recompute e from t =
    let job = new_job e (t.last_job + 1) from (latest_date 0 (t.balances e.merchant_id)) in
    process_block job 0 (record t { jobs = job ∷ t.jobs; last_job = t.last_job + 1 })

-- `advanceProgress`
abbrev pub advance_progress :
    StorePlatform → EntryConfirmed → Projection → Result Failure (MerchantProgress × Projection)
advance_progress s e t = do
  p ← or_fail (t.progress e.merchant_id) other_error
  let q : MerchantProgress = advance s.now e.merchant_id (position_of e) t.receipts p
  ok (q, record t { progress = update t.progress e.merchant_id (some q) })

-- `Apply` from the receipt on, for an event that the inbox took
unfoldable pub apply_new :
    StorePlatform → EntryConfirmed → Projection → Result Failure (ProjectionResult × Projection)
unfolding add_receipt financial_effect add_totals process_block latest_date advance
    has_pending_recompute fingerprint_bytes parse format day_number
apply_new s e t = do
  totalled ← with_totals s e t
  from ← read_day e.business_date
  (recompute, closed) ← start_recompute e from totalled
  (progress, advanced) ← advance_progress s e closed
  ok (
    record (none_recomputed progress false (has_pending_recompute e.merchant_id advanced)) {
      recomputed_from = recompute.from_date;
      recomputed_through = recompute.through_date;
    },
    advanced,
  )

-- the transaction of `Apply`, on an event in its canonical form
unfoldable pub project :
    StorePlatform → EntryConfirmed → Projection → Result Failure (ProjectionResult × Projection)
unfolding init_progress resolve_duplicate apply_new
project s e t =
    let started = init_progress s.now e.merchant_id t in
    if any (inbox_conflicts e) started.inbox
    then (do result ← resolve_duplicate s e started; ok (result, started))
    else apply_new s e started

-- a transaction: what it did is kept if it returns and PostgreSQL accepts it
unfoldable pub transact :
    {A : Type 0}
    → Bool
    → Result Failure (A × Projection)
    → Projection
    → Result Failure A × Projection
transact works outcome t = elim outcome [
  | err f ↦ (err f, t)
  | ok (a, u) ↦ if works then (ok a, u) else (err other_error, t)
]

-- `Apply`
unfoldable pub apply :
    StorePlatform
    → Bool
    → List Identifier
    → EntryConfirmed
    → Projection
    → Result Failure ProjectionResult × Projection
unfolding validate canonical project transact
apply s works order e t = elim (validate order e) [
  | err f ↦ (err (validation_error f), t)
  | ok _ ↦ transact works (project s (canonical e) t) t
]

-- whether a pending job comes before another one: `ORDER BY next_date, id`
abbrev pub job_before : Job → Job → Bool
job_before a b = ltb a.next_date b.next_date || ((a.next_date == b.next_date) && ltb a.id b.id)

abbrev pub earlier_job : Job → Option Job → Job
earlier_job j none = j
earlier_job j (some k) = if job_before k j then k else j

-- the first pending job of a merchant
unfoldable pub next_job : Text → List Job → Option Job
next_job m [] = none
next_job m (j ∷ js) =
    let rest = next_job m js in if is_pending_of m j then some (earlier_job j rest) else rest

abbrev pub nothing_processed : RecomputeResult
nothing_processed = record {
  processed = false;
  job_id = 0;
  from_date = 0;
  through_date = 0;
  is_pending = false;
}

unfoldable pub resume_transaction :
    Text → Projection → Result Failure (RecomputeResult × Projection)
unfolding next_job process_block
resume_transaction m t = elim (next_job m t.jobs) [
  | none ↦ ok (nothing_processed, t)
  | some j ↦ process_block j 1 t
]

-- `ResumeNext`
unfoldable pub resume_next : Bool → Text → Projection → Result Failure RecomputeResult × Projection
unfolding resume_transaction transact
resume_next works merchant t = transact works (resume_transaction (lower merchant) t) t

-- `Balance`; a uuid column is compared without regard to case
unfoldable pub read_balance : Text → ℕ → Projection → Result Failure Day
unfolding row_at
read_balance m d t = or_fail (row_at d (t.balances (lower m))) other_error

abbrev pub is_missing : Text → Bool
is_missing [] = true
is_missing (c ∷ s) = false

unfoldable pub days_between : ℕ → ℕ → List Day → List Day
days_between from through [] = []
days_between from through (r ∷ rs) =
    let rest = days_between from through rs in
    if leb from r.date && leb r.date through then r ∷ rest else rest

-- `Balances`
unfoldable pub read_balances : Text → ℕ → ℕ → Projection → Result Failure (List Day)
unfolding days_between
read_balances m from through t =
    if is_missing m || ltb through from
    then err other_error
    else ok (days_between from through (t.balances (lower m)))

-- `SystemStats`: the recompute jobs that it counts
unfoldable pub count_recomputes : List Job → ℕ
count_recomputes [] = 0
count_recomputes (j ∷ js) = (if is_running_or_failed j.status then 1 else 0) + count_recomputes js

-- `Progress`
unfoldable pub read_progress : Text → Projection → Result Failure MerchantProgress
read_progress m t = or_fail (t.progress (lower m)) other_error
