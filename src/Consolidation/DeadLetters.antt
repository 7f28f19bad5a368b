-- ===== src/Consolidation/DeadLetters.antt =====
-- services/consolidation/internal/reconciliation/dlq.go: the replay of dead letters. The
-- identifiers are those of uuid columns, in lower case.
pub mod Replays
use keyrus.Base.{
  ℕ, zero, suc, ◌+◌, Bool, true, false, not, ◌&&◌, ◌||◌, Option, none, some, List, [], ◌∷◌, ltb,
  ◌==◌, if◌then◌else◌, any, Result, ok, err,
}
use keyrus.Base.Text.{Text, text_eq}
use keyrus.Consolidation.Event.{Failure, other_error, FailureClass, failure_retry, failure_dlq}
use keyrus.Consolidation.Projection.{Projection, ProjectionResult}
use keyrus.Consolidation.Consumer.{Pending, DeadLetter, PendingTables}

-- a row of the query
pub record Item : Type 0 where
  pub event_id : Text
  pub payload : Text

-- `Result`
pub record Counts : Type 0 where
  pub reprocessed : ℕ
  pub failed : ℕ

pub data Outcome : Type 0 where
  query_failed partial_failure all_ok : Outcome

-- a row of consolidation.dlq_reprocess_audit, without its times
pub record Audit : Type 0 where
  pub actor : Text
  pub counts : Counts
  pub outcome : Outcome

-- what a replay works on
pub record Parked : Type 0 where
  pub tables : PendingTables
  pub projection : Projection
  pub counts : Counts

abbrev pub is_dlq : FailureClass → Bool
is_dlq failure_retry = false
is_dlq failure_dlq = true

abbrev pub is_parked : Text → Pending → Bool
is_parked id p = text_eq p.event_id id && is_dlq p.failure_class

abbrev pub text_before : Text → Text → Bool
text_before [] [] = false
text_before [] (d ∷ t) = true
text_before (c ∷ s) [] = false
text_before (c ∷ s) (d ∷ t) = ltb c d || ((c == d) && text_before s t)

-- `ORDER BY d.event_id`
unfoldable pub insert_item : Item → List Item → List Item
insert_item i [] = i ∷ []
insert_item i (j ∷ js) =
    let rest = insert_item i js in
    if text_before j.event_id i.event_id then j ∷ rest else i ∷ j ∷ js

-- the dead letters whose event is parked
unfoldable pub dlq_items : List Pending → List DeadLetter → List Item
unfolding insert_item
dlq_items pending [] = []
dlq_items pending (d ∷ ds) =
    let rest = dlq_items pending ds in
    elim d.event_id [
      | none ↦ rest
      | some id ↦
          if any (is_parked id) pending
          then insert_item (record { event_id = id; payload = d.payload }) rest
          else rest
    ]

-- the two DELETE statements
unfoldable pub delete_pending : Text → List Pending → List Pending
delete_pending id [] = []
delete_pending id (p ∷ ps) =
    let rest = delete_pending id ps in if is_parked id p then rest else p ∷ rest

abbrev pub is_letter_of : Text → DeadLetter → Bool
is_letter_of id d = elim d.event_id [ none ↦ false | some k ↦ text_eq k id ]

unfoldable pub delete_letters : Text → List DeadLetter → List DeadLetter
delete_letters id [] = []
delete_letters id (d ∷ ds) =
    let rest = delete_letters id ds in if is_letter_of id d then rest else d ∷ rest

abbrev pub count_failed : Counts → Counts
count_failed c = record c { failed = c.failed + 1 }

abbrev pub count_reprocessed : Counts → Counts
count_reprocessed c = record c { reprocessed = c.reprocessed + 1 }

-- the deletions for an item that was applied, each with whether PostgreSQL accepts it
unfoldable pub release : Bool × Bool → Text → Parked → Parked
unfolding delete_pending delete_letters
release (pending_works, letter_works) id r =
    let unparked = record r.tables { pending = delete_pending id r.tables.pending } in
    if not pending_works
    then record r { counts = count_failed r.counts }
    else if not letter_works
    then record r { tables = unparked; counts = count_failed r.counts }
    else record r {
      tables = record unparked { dead_letters = delete_letters id r.tables.dead_letters };
      counts = count_reprocessed r.counts;
    }

-- `audit`
abbrev pub audited : Bool → Audit → Option Audit
audited works a = if works then some a else none

module _ (apply_payload : Text → Projection → Result Failure ProjectionResult × Projection) where
  -- one turn of the loop
  unfoldable pub replay_item : Bool × Bool → Item → Parked → Parked
  unfolding release
  replay_item works i r =
      let after = (apply_payload i.payload r.projection).1 in
      elim (apply_payload i.payload r.projection).0 [
        | err f ↦ record r { projection = after; counts = count_failed r.counts }
        | ok done ↦ release works i.event_id (record r { projection = after })
      ]

  -- the loop, from the item at `k` on
  unfoldable pub replay_items : (ℕ → Bool × Bool) → ℕ → List Item → Parked → Parked
  unfolding replay_item
  replay_items works k [] r = r
  replay_items works k (i ∷ is) r = replay_items works (suc k) is (replay_item (works k) i r)

  -- `Reprocess`, with the row that it audits where PostgreSQL accepts that one
  unfoldable pub reprocess :
      Bool
      → Bool
      → (ℕ → Bool × Bool)
      → Text
      → PendingTables
      → Projection
      → Result Failure Counts × Parked × Option Audit
  unfolding replay_items dlq_items
  reprocess query_works audit_works works actor tables t =
      let begun : Parked = record {
        tables = tables;
        projection = t;
        counts = record { reprocessed = 0; failed = 0 };
      } in
      let ended = replay_items works 0 (dlq_items tables.pending tables.dead_letters) begun in
      if query_works
      then (
        ok ended.counts,
        ended,
        audited audit_works (record {
          actor = actor;
          counts = ended.counts;
          outcome = if ltb 0 ended.counts.failed then partial_failure else all_ok;
        }),
      )
      else (
        err other_error,
        begun,
        audited audit_works
            (record { actor = actor; counts = begun.counts; outcome = query_failed }),
      )
