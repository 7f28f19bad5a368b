-- ===== src/Ledger/Wire.antt =====
-- services/ledger/internal/application/service.go: what the use cases take, return and publish, and
-- the libraries that they call.
use keyrus.Base.{ℕ, Bool, Option, none, some, List, [], ◌≡◌}
use keyrus.Base.Int.{ℤ}
use keyrus.Base.Text.{Text, codes}
use keyrus.Base.Date.{Date, format}
use keyrus.Ledger.Errors.{Fallible}
use keyrus.Ledger.Money.{Money, currency_brl}
use keyrus.Ledger.Identifier.{EntryId}
use keyrus.Ledger.Entry.{Entry}
use keyrus.Ledger.Calendar.{Location}

abbrev pub operation_create : Text
operation_create = codes "create_entry"

abbrev pub operation_reverse : Text
operation_reverse = codes "reverse_entry"

abbrev pub entry_event_type : Text
entry_event_type = codes "ledger.entry.confirmed.v1"

pub record CreateEntryInput : Type 0 where
  pub merchant_id : Text
  pub idempotency_key : Text
  pub entry_type : Text
  pub amount_minor : ℤ
  pub currency : Text
  pub business_date : Option Text
  pub description : List ℕ
  pub time_zone : Text
  pub traceparent : Text

pub record ReverseEntryInput : Type 0 where
  pub merchant_id : Text
  pub original_entry_id : Text
  pub idempotency_key : Text
  pub time_zone : Text
  pub traceparent : Text

-- `EntryResult`; an absent identifier is the empty text
pub record EntryResult : Type 0 where
  pub id : Text
  pub merchant_id : Text
  pub position : ℕ
  pub entry_type : Text
  pub amount_minor : ℤ
  pub currency : Text
  pub business_date : Text
  pub description : List ℕ
  pub confirmed_at : ℕ
  pub original_entry_id : Text
  pub reversal_entry_id : Text
  pub state : Text

-- the structure that `insertOutbox` marshals
pub record EventWire : Type 0 where
  pub event_id : Text
  pub event_type : Text
  pub occurred_at : ℕ
  pub merchant_id : Text
  pub merchant_position : ℕ
  pub entry_id : Text
  pub entry_type : Text
  pub amount_minor : ℤ
  pub currency : Text
  pub business_date : Text
  pub confirmed_at : ℕ
  pub original_entry_id : Option Text
  pub traceparent : Text

-- the structures that are hashed to compare two requests
pub data RequestBody : Type 0 where
  create_body : Text → ℤ → Text → Option Text → List ℕ → RequestBody
  reverse_body : Text → RequestBody

-- The libraries that the use cases call: SHA-256, JSON and the installed time zones. `stored` is
-- what a jsonb column gives back for a text.
pub record Platform : Type 0 where
  pub sha256 : Text → Text
  pub marshal_request : RequestBody → Text
  pub marshal_result : EntryResult → Text
  pub unmarshal_result : Text → Option EntryResult
  pub marshal_event : EventWire → Text
  pub stored : Text → Text
  pub load_location : Text → Option Location
  -- a result is read back as it was written, through the column
  pub unmarshal-stored : (r : EntryResult) → unmarshal_result (stored (marshal_result r)) ≡ some r
  -- an empty text is no JSON
  pub unmarshal-nil : unmarshal_result [] ≡ none

-- what `CreateEntry` has computed before it takes a position
pub record Draft : Type 0 where
  pub entry_type : Text
  pub money : Money
  pub business_date : Date

-- What one call draws from its clock and its generator of identifiers, in their order, and whether
-- PostgreSQL accepts the commit.
pub record Draws : Type 0 where
  pub attempt_id : Fallible EntryId
  pub confirmed_at : ℕ
  pub entry_id : Fallible EntryId
  pub event_id : Fallible EntryId
  pub completed_at : ℕ
  pub commits : Bool

abbrev pub text_or_empty : Option Text → Text
text_or_empty none = []
text_or_empty (some s) = s

abbrev pub state_confirmed : Text
state_confirmed = codes "confirmed"

-- `resultFromEntry`
unfoldable pub result_from_entry : Entry → EntryResult
result_from_entry e = record {
  id = e.id;
  merchant_id = e.merchant_id;
  position = e.position;
  entry_type = e.entry_type;
  amount_minor = e.money.minor;
  currency = currency_brl;
  business_date = format e.business_date;
  description = e.description;
  confirmed_at = e.confirmed_at;
  original_entry_id = text_or_empty e.original_entry_id;
  reversal_entry_id = [];
  state = state_confirmed;
}

-- the payload of the event of an entry
unfoldable pub event_wire : EntryId → Entry → ℕ → Text → EventWire
event_wire event_id e now traceparent = record {
  event_id = event_id;
  event_type = entry_event_type;
  occurred_at = now;
  merchant_id = e.merchant_id;
  merchant_position = e.position;
  entry_id = e.id;
  entry_type = e.entry_type;
  amount_minor = e.money.minor;
  currency = currency_brl;
  business_date = format e.business_date;
  confirmed_at = e.confirmed_at;
  original_entry_id = e.original_entry_id;
  traceparent = traceparent;
}
