-- ===== src/Consolidation/Projector.antt =====
-- services/consolidation/internal/application/projector.go: the projector in front of the store.
use keyrus.Base.{Bool, List, [], ◌∷◌, Result, ok, err}
use keyrus.Base.Text.{Text}
use keyrus.Consolidation.Event.{
  EntryConfirmed, Decoder, Identifier, Failure, validation_error, merchant_id, validate, canonical,
  parse_entry_confirmed,
}
use keyrus.Consolidation.Projection.{Projection, ProjectionResult, RecomputeResult, StorePlatform}
use keyrus.Consolidation.Store.{apply, resume_next}

-- `Projector.Apply`; the store may visit the identifiers in another order
unfoldable pub project_event :
    StorePlatform
    → Bool
    → List Identifier
    → List Identifier
    → EntryConfirmed
    → Projection
    → Result Failure ProjectionResult × Projection
unfolding validate canonical apply
project_event s works order again e t = elim (validate order e) [
  | err f ↦ (err (validation_error f), t)
  | ok _ ↦ apply s works again (canonical e) t
]

-- `ApplyPayload`
unfoldable pub apply_payload :
    Decoder
    → StorePlatform
    → Bool
    → List Identifier
    → List Identifier
    → Text
    → Projection
    → Result Failure ProjectionResult × Projection
unfolding parse_entry_confirmed project_event
apply_payload d s works order again payload t = elim (parse_entry_confirmed d order payload) [
  | err f ↦ (err (validation_error f), t)
  | ok e ↦ project_event s works order again e t
]

-- `ResumeRecompute`
unfoldable pub resume_recompute :
    Bool → Text → Projection → Result Failure RecomputeResult × Projection
unfolding resume_next
resume_recompute works [] t = (err (validation_error merchant_id), t)
resume_recompute works (c ∷ m) t = resume_next works (c ∷ m) t
