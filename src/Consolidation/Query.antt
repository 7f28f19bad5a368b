-- ===== src/Consolidation/Query.antt =====
-- services/consolidation/internal/application/query.go: the state that is reported with a balance.
-- MerchantProgress is in domain/balance.go.
use keyrus.Base.{
  ℕ, ◌-◌, ◌≡◌, ◌≤◌, ◌↔◌, refl, Bool, true, false, not, ◌||◌, Option, none, some, arith, ltb, ◌==◌,
  if◌then◌else◌,
}

pub record MerchantProgress : Type 0 where
  pub source_position : ℕ
  pub applied_position : ℕ
  pub first_gap : Option ℕ
  pub updated_at : ℕ

abbrev is_some : Option ℕ → Bool
is_some none = false
is_some (some g) = true

-- `HasGap`
unfoldable pub has_gap : MerchantProgress → Bool
has_gap p = is_some p.first_gap || not (p.applied_position == p.source_position)

pub data ConsolidationState : Type 0 where
  state_updated state_processing state_delayed : ConsolidationState

pub data Reason : Type 0 where
  no_reason source_unverifiable : Reason

-- what is the same for every day of an answer
pub record Classification : Type 0 where
  pub state : ConsolidationState
  pub reason : Reason
  pub definitive : Bool
  pub source_position : ℕ
  pub applied_position : ℕ

-- 30 * time.Second
abbrev pub freshness : ℕ
freshness = 30000000000

-- The part of `GetDailyBalances` between the reads and the days: `watermark` is the position of the
-- Ledger and the time of its observation, or none where the Ledger does not answer.
unfoldable pub classify : MerchantProgress → Bool → Option (ℕ × ℕ) → ℕ → Classification
unfolding has_gap
classify p pending none now = record {
  state = state_delayed;
  reason = source_unverifiable;
  definitive = false;
  source_position = p.source_position;
  applied_position = p.applied_position;
}
classify p pending (some (source, observed_at)) now =
    let effective = if ltb p.source_position source then source else p.source_position in
    let is_pending = pending || (has_gap p || ltb p.applied_position effective) in
    record {
      state =
          if not is_pending
          then state_updated
          else if ltb freshness (now - observed_at)
          then state_delayed
          else state_processing;
      reason = no_reason;
      definitive = not is_pending;
      source_position = effective;
      applied_position = p.applied_position;
    }

-- An answer is definitive exactly when the Ledger reports a position, no recompute is pending, there
-- is no gap, every position that was received is applied, and the reported position is applied too.
pub classify-definitive :
    (p : MerchantProgress) (pending : Bool) (watermark : Option (ℕ × ℕ)) (now : ℕ)
    → ((classify p pending watermark now).definitive ≡ true) ↔ (
        (source : ℕ) × (observed : ℕ) × (watermark ≡ some (source, observed))
        × (pending ≡ false)
        × (p.first_gap ≡ none)
        × (p.applied_position ≡ p.source_position)
        × (source ≤ p.applied_position))
unfolding classify has_gap
classify-definitive p pending none now = (λ h. cc, λ (s, o, e, a, b, c, d). cc)
classify-definitive p pending (some (source, observed)) now = (
  λ h. (
    source,
    observed,
    refl,
    ground (arith, h),
    ground (arith, h),
    ground (arith, h),
    ground (arith, h),
  ),
  λ (s, o, e, idle, gap, applied, known). ground (arith, e, idle, gap, applied, known),
)
