-- ===== src/Ledger/Errors.antt =====
-- The errors of services/ledger/internal/domain/errors.go and application/errors.go, and the
-- failures that the adapters report without a name.
use keyrus.Base.{Result}

pub data Error : Type 0 where
  invalid_id invalid_merchant invalid_entry_type invalid_amount invalid_currency : Error
  invalid_business_date invalid_time_zone description_too_long reversal_not_allowed : Error
  invalid_argument idempotency_conflict entry_not_found already_reversed : Error
  invalid_cursor cursor_scope_mismatch : Error
  -- `errors.New("idempotency record has no completed response")`
  response_missing : Error
  -- `errors.New("idempotency attempt was not completed")`
  not_completed : Error
  -- "generate uuid entropy"
  no_entropy : Error
  -- a statement that PostgreSQL refuses for a constraint, a range or a missing row
  database : Error

abbrev pub Fallible {ℓ} : Type ℓ → Type ℓ
Fallible A = Result Error A
