-- ===== src/Consolidation/Tests/Replayed.antt =====
-- A replay of two dead letters, of which one event is parked.
use keyrus.Base.{Option, false, ◌+◌, ◌≡◌, refl, true, none, some, List, [], ◌∷◌, length, ok, Result}
use keyrus.Base.Text.{Text, codes}
use keyrus.Consolidation.Event.{
  Decoder, Failure, Identifier, the_event, the_merchant, the_entry, failure_dlq, failure_retry,
  validation_error, payload, entry_confirmed_v1,
}
use keyrus.Consolidation.Projection.{Projection, ProjectionResult, StorePlatform}
use keyrus.Consolidation.Projector.{apply_payload}
use keyrus.Consolidation.Store.Runs.{no_tables}
use keyrus.Consolidation.Consumer.{Pending, DeadLetter, PendingTables}
use keyrus.Consolidation.DeadLetters.{dlq_items, reprocess, Counts, Audit, Parked}
use keyrus.Consolidation.DeadLetters.Replays.{
  letters_of, parked_of, reprocess-refused, reprocess-counts, IsAuditOf,
}

-- no payload is JSON
abbrev decoder : Decoder
decoder = record { decode = λ s. none; parse_time = λ s. none }

abbrev platform : StorePlatform
platform = record { sha256_hex = λ s. s; print_time = λ t. t ∷ []; now = 5 }

abbrev order : List Identifier
order = the_merchant ∷ the_event ∷ the_entry ∷ []

abbrev project : Text → Projection → Result Failure ProjectionResult × Projection
project = apply_payload decoder platform true order order

abbrev parked : Pending
parked = record {
  event_id = codes "e1";
  failure_class = failure_dlq;
  attempts = 3;
  error_code = codes "x";
}

abbrev letter : DeadLetter
letter = record {
  event_id = some (codes "e1");
  event_type = entry_confirmed_v1;
  payload = codes "{";
  error_code = codes "x";
}

abbrev tables : PendingTables
tables = record {
  pending = parked ∷ record parked { event_id = codes "e2"; failure_class = failure_retry } ∷ [];
  dead_letters = letter ∷ record letter { event_id = some (codes "e2") } ∷ [];
}

reprocess-refused_example :
    (letters_of
        (codes "e1")
        (reprocess project true true
          (λ k. (true, true))
          (codes "operator")
          tables
          no_tables).1.tables.dead_letters
      ≡ letters_of (codes "e1") tables.dead_letters)
    × (parked_of
          (codes "e1")
          (reprocess project true true
            (λ k. (true, true))
            (codes "operator")
            tables
            no_tables).1.tables.pending
        ≡ parked_of (codes "e1") tables.pending)
unfolding apply_payload dlq_items
reprocess-refused_example =
    reprocess-refused project true true (λ k. (true, true)) (codes "operator") tables no_tables
      (codes "e1") (λ same t. (validation_error payload, refl), tt)

abbrev replayed : Result Failure Counts × Parked × Option Audit
replayed = reprocess project true true (λ k. (true, true)) (codes "operator") tables no_tables

reprocess-counts_example :
    (c : Counts) × (replayed.0 ≡ ok c)
    × (c.reprocessed + c.failed ≡ length (dlq_items tables.pending tables.dead_letters))
    × (true ≡ true → (a : Audit) × (replayed.2 ≡ some a) × IsAuditOf (codes "operator") c a)
    × (true ≡ false → replayed.2 ≡ none)
reprocess-counts_example =
    reprocess-counts project true (λ k. (true, true)) (codes "operator") tables no_tables
