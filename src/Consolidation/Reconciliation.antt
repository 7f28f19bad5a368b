-- ===== src/Consolidation/Reconciliation.antt =====
-- services/consolidation/internal/reconciliation/worker.go: the comparison of the Ledger's entries of a
-- day with those that were projected, at a cut of the positions.
pub mod Counts
pub mod Converged
pub mod Runs
use keyrus.Base.{
  ℕ, zero, suc, ◌+◌, ◌-◌, Bool, true, false, not, ◌&&◌, Option, none, some, List, [], ◌∷◌, ltb, leb,
  ◌==◌, if◌then◌else◌, any, Result, ok, err,
}
use keyrus.Base.Int.{ℤ, pos, negsuc, ◌+ℤ◌, ◌-ℤ◌, wrap_ℤ}
use keyrus.Base.Text.{Text, text_eq, lower}
use keyrus.Base.Date.{Date, format}
use keyrus.Base.Date.Number.{day_number}
use keyrus.Consolidation.Event.{Failure, other_error}
use keyrus.Consolidation.Days.{Day, row_at}
use keyrus.Consolidation.Projection.{Projection, InboxRow, position_of}

-- `ledgerrpc.Entry`, where the worker reads it
pub record SourceEntry : Type 0 where
  pub entry_id : Text
  pub business_date : Text
  pub kind : ℕ
  pub amount_minor : ℤ

-- what `Recv` gives; a stream ends with io.EOF where its list ends
pub data Received : Type 0 where
  entry : SourceEntry → Received
  broken : Received

-- one call of `StreamEntriesAtCut` with what it streams, and whether the context is done after it
pub record StreamAttempt : Type 0 where
  pub stream : Option (List Received)
  pub is_done : Bool

-- the entries by identifier and the sums; of the map only its keys are read
pub record Source : Type 0 where
  pub ids : List Text
  pub credits : ℤ
  pub debits : ℤ

abbrev pub no_source : Source
no_source = record { ids = []; credits = pos 0; debits = pos 0 }

abbrev pub has_id : Text → List Text → Bool
has_id id = any (text_eq id)

unfoldable pub add_entry : SourceEntry → Source → Source
unfolding wrap_ℤ ◌+ℤ◌
add_entry e s = record {
  ids = if has_id e.entry_id s.ids then s.ids else e.entry_id ∷ s.ids;
  credits = if e.kind == 1 then wrap_ℤ (s.credits +ℤ e.amount_minor) else s.credits;
  debits = if e.kind == 2 then wrap_ℤ (s.debits +ℤ e.amount_minor) else s.debits;
}

abbrev pub is_end : SourceEntry → Bool
is_end e = text_eq e.entry_id []

-- the loop of `attemptStream`
unfoldable pub read_stream : Text → List Received → Source → Option Source
unfolding add_entry
read_stream day [] s = some s
read_stream day (broken ∷ rs) s = none
read_stream day (entry e ∷ rs) s =
    let skipped = read_stream day rs s in
    let taken = read_stream day rs (add_entry e s) in
    if is_end e then some s else if not (text_eq e.business_date day) then skipped else taken

-- `attemptStream`
unfoldable pub attempt_stream : Text → Option (List Received) → Option Source
unfolding read_stream
attempt_stream day none = none
attempt_stream day (some rs) = read_stream day rs no_source

abbrev pub maximum_attempts : ℕ
maximum_attempts = 3

-- `streamSourceEntries`, with the attempts that are left
unfoldable pub stream_source : ℕ → Text → List StreamAttempt → Option Source
unfolding attempt_stream
stream_source zero day rest = none
stream_source (suc n) day [] = none
stream_source (suc n) day (a ∷ rest) =
    let next = stream_source n day rest in
    elim (attempt_stream day a.stream) [ some s ↦ some s | none ↦ if a.is_done then none else next ]

abbrev pub is_projected : Text → ℕ → ℕ → InboxRow → Bool
is_projected m day cut r =
    text_eq r.event.merchant_id m && ((r.business_day == day) && leb (position_of r.event) cut)

-- the rows of `loadProjectedEntryCounts`
unfoldable pub projected_ids : Text → ℕ → ℕ → List InboxRow → List Text
projected_ids m day cut [] = []
projected_ids m day cut (r ∷ rs) =
    let rest = projected_ids m day cut rs in
    if is_projected m day cut r then r.event.entry_id ∷ rest else rest

-- `projected[entryID]++`
unfoldable pub raise_count : Text → List (Text × ℕ) → List (Text × ℕ)
raise_count id [] = (id, 1) ∷ []
raise_count id ((k, n) ∷ counts) =
    let rest = raise_count id counts in if text_eq k id then (k, n + 1) ∷ counts else (k, n) ∷ rest

unfoldable pub count_ids : List Text → List (Text × ℕ)
unfolding raise_count
count_ids [] = []
count_ids (id ∷ ids) = raise_count id (count_ids ids)

-- `projected[entryID]`, zero where the map has no such key
unfoldable pub count_of : Text → List (Text × ℕ) → ℕ
count_of id [] = 0
count_of id ((k, n) ∷ counts) = let rest = count_of id counts in if text_eq k id then n else rest

unfoldable pub missing_of : List (Text × ℕ) → List Text → ℕ
unfolding count_of
missing_of counts [] = 0
missing_of counts (id ∷ ids) = (if count_of id counts == 0 then 1 else 0) + missing_of counts ids

unfoldable pub extra_of : List Text → List (Text × ℕ) → ℕ
extra_of ids [] = 0
extra_of ids ((k, n) ∷ counts) = (if not (has_id k ids) then 1 else 0) + extra_of ids counts

unfoldable pub duplicated_of : List (Text × ℕ) → ℕ
duplicated_of [] = 0
duplicated_of ((k, n) ∷ counts) = (if ltb 1 n then n - 1 else 0) + duplicated_of counts

-- `ReconcileResult`
pub record ReconcileResult : Type 0 where
  pub missing_entries : ℕ
  pub extra_entries : ℕ
  pub duplicated_entries : ℕ
  pub financial_difference : ℤ
  pub is_skipped : Bool

-- `compareEntrySets`, with no difference and nothing skipped
unfoldable pub compare_entry_sets : List Text → List (Text × ℕ) → ReconcileResult
unfolding missing_of extra_of duplicated_of
compare_entry_sets ids counts = record {
  missing_entries = missing_of counts ids;
  extra_entries = extra_of ids counts;
  duplicated_entries = duplicated_of counts;
  financial_difference = pos 0;
  is_skipped = false;
}

-- a row of consolidation.reconciliation_run
pub record Run : Type 0 where
  pub cut : ℕ
  pub outcome : ReconcileResult

-- for each merchant and day
abbrev pub RunTable : Type 0
RunTable = Text → ℕ → Option Run

-- the upsert, which replaces older cuts alone
unfoldable pub save_run : Text → ℕ → Run → RunTable → RunTable
save_run m day r runs = λ k d.
    if text_eq k m && (d == day)
    then (elim (runs k d) [
      | none ↦ some r
      | some old ↦ if ltb old.cut r.cut then some r else some old
    ])
    else runs k d

abbrev pub magnitude : ℤ → ℤ
magnitude (pos n) = pos n
magnitude (negsuc n) = wrap_ℤ (pos (suc n))

-- `diff`, made positive
abbrev pub difference_of : ℤ → ℤ → ℤ → ℤ → ℤ
difference_of source_credits source_debits credits debits =
    magnitude (wrap_ℤ (wrap_ℤ (credits -ℤ debits) -ℤ wrap_ℤ (source_credits -ℤ source_debits)))

-- a day that has no row counts as zero
abbrev pub day_difference : Source → Option Day → ℤ
day_difference s none = difference_of s.credits s.debits (pos 0) (pos 0)
day_difference s (some r) = difference_of s.credits s.debits r.credits r.debits

-- what `reconcile` compares the source with
unfoldable pub compare_day : Text → ℕ → ℕ → Source → Projection → ReconcileResult
unfolding row_at projected_ids count_ids compare_entry_sets ◌-ℤ◌ wrap_ℤ
compare_day m day cut s t =
    record (compare_entry_sets s.ids (count_ids (projected_ids m day cut t.inbox))) {
      financial_difference = day_difference s (row_at day (t.balances m));
    }

abbrev pub mark_skipped : ReconcileResult → ReconcileResult
mark_skipped r = record r { is_skipped = true }

-- `reconcile` where no cut as new was persisted
unfoldable pub reconcile_fresh :
    Bool
    → List StreamAttempt
    → Text
    → Date
    → ℕ
    → Projection
    → RunTable
    → Result Failure ReconcileResult × RunTable
unfolding stream_source compare_day save_run format day_number
reconcile_fresh works attempts m date cut t runs =
    elim (stream_source maximum_attempts (format date) attempts) [
      | none ↦ (err other_error, runs)
      | some s ↦
          let result = compare_day m (day_number date) cut s t in
          if works
          then (
            ok result,
            save_run m (day_number date) (record { cut = cut; outcome = result }) runs,
          )
          else (err other_error, runs)
    ]

-- `reconcile`; `works` is false where PostgreSQL refuses to write or to commit
unfoldable pub reconcile :
    Bool
    → List StreamAttempt
    → Text
    → Date
    → ℕ
    → Projection
    → RunTable
    → Result Failure ReconcileResult × RunTable
unfolding reconcile_fresh day_number
reconcile works attempts merchant date cut t runs = elim (runs (lower merchant) (day_number date)) [
  | none ↦ reconcile_fresh works attempts (lower merchant) date cut t runs
  | some r ↦
      if leb cut r.cut
      then (ok (mark_skipped r.outcome), runs)
      else reconcile_fresh works attempts (lower merchant) date cut t runs
]
