-- ===== src/Consolidation/Projection.antt =====
-- services/consolidation/internal/adapters/outbound/postgres/store.go: the projection of events onto
-- balances and progress. The advisory lock of the merchant makes the calls sequential steps.
use keyrus.Base.{
  ℕ, zero, suc, ◌+◌, ◌-◌, min, Bool, true, false, ◌&&◌, ◌||◌, Option, none, some, List, [], ◌∷◌,
  ltb, ◌==◌, if◌then◌else◌, any, find, Result, ok, err, ◌>>=◌,
}
use keyrus.Base.Int.{pos_part}
use keyrus.Base.Text.{Text, text_eq}
use keyrus.Consolidation.Event.{EntryConfirmed, Failure, conflict_error}
use keyrus.Consolidation.Query.{MerchantProgress}
use keyrus.Consolidation.Days.{Day, recompute_days}

-- consolidation.inbox_event
pub record InboxRow : Type 0 where
  pub event : EntryConfirmed
  pub payload_fingerprint : Text
  pub business_day : ℕ

-- consolidation.position_receipt
pub record Receipt : Type 0 where
  pub merchant_id : Text
  pub position : ℕ
  pub event_id : Text

-- the statuses that the table allows
pub data JobStatus : Type 0 where
  job_pending job_running job_completed job_failed : JobStatus

-- consolidation.recompute_job; `next_date` is 0 where the column is NULL, in the completed jobs
pub record Job : Type 0 where
  pub id : ℕ
  pub event_id : Text
  pub merchant_id : Text
  pub from_date : ℕ
  pub through_date : ℕ
  pub next_date : ℕ
  pub status : JobStatus
  pub attempts : ℕ

-- The tables: newest rows first in the lists, and for each merchant the rows of its balances and its
-- row of consolidation.merchant_progress.
pub record Projection : Type 0 where
  pub inbox : List InboxRow
  pub receipts : List Receipt
  pub balances : Text → List Day
  pub progress : Text → Option MerchantProgress
  pub jobs : List Job
  pub last_job : ℕ

-- `ProjectionResult`
pub record ProjectionResult : Type 0 where
  pub is_duplicate : Bool
  pub source_position : ℕ
  pub applied_position : ℕ
  pub first_gap : Option ℕ
  pub recomputed_from : ℕ
  pub recomputed_through : ℕ
  pub recompute_pending : Bool

-- `RecomputeResult`
pub record RecomputeResult : Type 0 where
  pub processed : Bool
  pub job_id : ℕ
  pub from_date : ℕ
  pub through_date : ℕ
  pub is_pending : Bool

-- What the store takes from libraries: SHA-256 in hexadecimal, RFC 3339 in UTC, the clock.
pub record StorePlatform : Type 0 where
  pub sha256_hex : Text → Text
  pub print_time : ℕ → Text
  pub now : ℕ

abbrev pub update {ℓ} : {A : Type ℓ} → (Text → A) → Text → A → Text → A
update f m v x = if text_eq x m then v else f x

abbrev pub maximum_span : ℕ
maximum_span = 31

abbrev pub position_of : EntryConfirmed → ℕ
position_of e = pos_part e.merchant_position

abbrev pub has_event_id : Text → InboxRow → Bool
has_event_id id r = text_eq r.event.event_id id

abbrev pub at_position : Text → ℕ → InboxRow → Bool
at_position m p r = text_eq r.event.merchant_id m && (position_of r.event == p)

abbrev pub inbox_conflicts : EntryConfirmed → InboxRow → Bool
inbox_conflicts e r = has_event_id e.event_id r || at_position e.merchant_id (position_of e) r

abbrev pub no_progress : ℕ → MerchantProgress
no_progress now = record {
  source_position = 0;
  applied_position = 0;
  first_gap = none;
  updated_at = now;
}

abbrev pub is_some {ℓ} : {A : Type ℓ} → Option A → Bool
is_some none = false
is_some (some a) = true

-- `INSERT INTO consolidation.merchant_progress ... ON CONFLICT DO NOTHING`
unfoldable pub init_progress : ℕ → Text → Projection → Projection
init_progress now m t =
    if is_some (t.progress m)
    then t
    else record t { progress = update t.progress m (some (no_progress now)) }

abbrev pub is_open : JobStatus → Bool
is_open job_pending = true
is_open job_running = true
is_open job_completed = false
is_open job_failed = false

abbrev pub is_pending : JobStatus → Bool
is_pending job_pending = true
is_pending job_running = false
is_pending job_completed = false
is_pending job_failed = false

abbrev pub is_running_or_failed : JobStatus → Bool
is_running_or_failed job_pending = false
is_running_or_failed job_running = true
is_running_or_failed job_completed = false
is_running_or_failed job_failed = true

abbrev pub is_open_of : Text → Job → Bool
is_open_of m j = text_eq j.merchant_id m && is_open j.status

abbrev pub is_pending_of : Text → Job → Bool
is_pending_of m j = text_eq j.merchant_id m && is_pending j.status

-- `readPendingRecompute`
unfoldable pub has_pending_recompute : Text → Projection → Bool
has_pending_recompute m t = any (is_open_of m) t.jobs

abbrev pub has_receipt : Text → ℕ → Receipt → Bool
has_receipt m p r = text_eq r.merchant_id m && (r.position == p)

-- `INSERT INTO consolidation.position_receipt`: its two keys
unfoldable pub add_receipt : EntryConfirmed → List Receipt → Result Failure (List Receipt)
add_receipt e rs =
    if any (has_receipt e.merchant_id (position_of e)) rs
      || any (λ r. text_eq r.event_id e.event_id) rs
    then err conflict_error
    else ok (
        record { merchant_id = e.merchant_id; position = position_of e; event_id = e.event_id }
        ∷ rs)

-- the recursive common table expression: positions that follow `p` without a gap, at most `fuel`
unfoldable pub contiguous : List Receipt → Text → ℕ → ℕ → ℕ
contiguous rs m zero p = p
contiguous rs m (suc fuel) p =
    let rest = contiguous rs m fuel (p + 1) in if any (has_receipt m (p + 1)) rs then rest else p

abbrev pub gap_of : ℕ → ℕ → Option ℕ
gap_of applied source = if ltb applied source then some (applied + 1) else none

abbrev pub max_ℕ : ℕ → ℕ → ℕ
max_ℕ a b = if ltb a b then b else a

-- The row that `advanceProgress` writes; the recursion stops at the source position.
unfoldable pub advance : ℕ → Text → ℕ → List Receipt → MerchantProgress → MerchantProgress
unfolding contiguous
advance now m position rs p =
    let source = max_ℕ p.source_position position in
    let applied = contiguous rs m (source - p.applied_position) p.applied_position in
    record {
      source_position = source;
      applied_position = applied;
      first_gap = gap_of applied source;
      updated_at = now;
    }

abbrev pub set_job : ℕ → (Job → Job) → List Job → List Job
set_job id f [] = []
set_job id f (j ∷ js) = (if j.id == id then f j else j) ∷ set_job id f js

-- the last day of a block
abbrev pub block_end : Job → ℕ
block_end j = min (j.next_date + (maximum_span - 1)) j.through_date

abbrev pub after_block : ℕ → Job → Job
after_block increment j =
    if ltb (block_end j) j.through_date
    then record j {
      status = job_pending;
      next_date = block_end j + 1;
      attempts = j.attempts + increment;
    }
    else record j { status = job_completed; next_date = 0; attempts = j.attempts + increment }

-- `processRecomputeBlock`
unfoldable pub process_block : Job → ℕ → Projection → Result Failure (RecomputeResult × Projection)
unfolding recompute_days
process_block j increment t = do
  days ← recompute_days j.next_date (block_end j) (t.balances j.merchant_id)
  ok (
    record {
      processed = true;
      job_id = j.id;
      from_date = j.next_date;
      through_date = block_end j;
      is_pending = ltb (block_end j) j.through_date;
    },
    record t {
      balances = update t.balances j.merchant_id days;
      jobs = set_job j.id (after_block increment) t.jobs;
    },
  )

abbrev pub same_content : Text → EntryConfirmed → InboxRow → Bool
same_content fingerprint e r =
    text_eq r.event.merchant_id e.merchant_id
    && ((position_of r.event == position_of e) && text_eq r.payload_fingerprint fingerprint)

-- the row of `ORDER BY (event_id = $1) DESC LIMIT 1`
abbrev pub conflicting_row : EntryConfirmed → List InboxRow → Option InboxRow
conflicting_row e rows = elim (find (has_event_id e.event_id) rows) [
  | some r ↦ some r
  | none ↦ find (at_position e.merchant_id (position_of e)) rows
]
