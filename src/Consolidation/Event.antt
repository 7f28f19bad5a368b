-- ===== src/Consolidation/Event.antt =====
-- services/consolidation/internal/domain/event.go: the event of a confirmed entry, as it is
-- received. ClassifyFailure is in application/projector.go.
pub mod Rules
pub mod Canonical
pub mod Fingerprint
use keyrus.Base.{
  ℕ, zero, suc, Bool, false, not, ◌&&◌, ◌||◌, Option, none, some, List, [], ◌∷◌, leb, ◌==◌,
  if◌then◌else◌, Result, ok, err, ◌>>=◌, ◌>>◌, fail_if, or_fail,
}
use keyrus.Base.Int.{ℤ, pos, negsuc, leb_ℤ}
use keyrus.Base.Text.{Text, codes, text_eq, lower}
use keyrus.Base.Date.{Date, is_zero_date, parse}
use keyrus.Base.Hex.{is_hex, is_lower_hex}
use keyrus.Base.Pattern.{Pattern, matches, times, is_dash}

abbrev pub entry_confirmed_v1 : Text
entry_confirmed_v1 = codes "ledger.entry.confirmed.v1"

abbrev pub entry_credit : Text
entry_credit = codes "credit"

abbrev pub entry_debit : Text
entry_debit = codes "debit"

abbrev pub is_version : ℕ → Bool
is_version c = leb b'1' c && leb c b'8'

abbrev pub is_rfc_variant : ℕ → Bool
is_rfc_variant c =
    (c == b'8') || ((c == b'9') || ((c == b'a') || ((c == b'b') || ((c == b'A') || (c == b'B')))))

-- `uuidPattern`
abbrev pub uuid_pattern : Pattern
uuid_pattern = times 8 is_hex (
    is_dash
    ∷ times 4 is_hex (
        is_dash
        ∷ is_version
        ∷ times 3 is_hex
            (is_dash ∷ is_rfc_variant ∷ times 3 is_hex (is_dash ∷ times 12 is_hex []))))

-- `traceparentPattern`
abbrev pub trace_pattern : Pattern
trace_pattern = times 2 is_lower_hex (
    is_dash
    ∷ times 32 is_lower_hex (is_dash ∷ times 16 is_lower_hex (is_dash ∷ times 2 is_lower_hex [])))

-- the fields that a `ValidationError` names
pub data Field : Type 0 where
  payload event_id event_type occurred_at merchant_id merchant_position entry_id : Field
  entry_type amount_minor currency business_date confirmed_at original_entry_id : Field
  traceparent : Field

pub record EntryConfirmed : Type 0 where
  pub event_id : Text
  pub event_type : Text
  pub occurred_at : ℕ
  pub merchant_id : Text
  pub merchant_position : ℤ
  pub entry_id : Text
  pub entry_type : Text
  pub amount_minor : ℤ
  pub currency : Text
  pub business_date : Date
  pub confirmed_at : ℕ
  pub original_entry_id : Option Text
  pub traceparent : Text

-- The three identifiers that `Validate` keeps in a map, which Go visits in any order.
pub data Identifier : Type 0 where
  the_event the_merchant the_entry : Identifier

abbrev pub identifier_of : Identifier → EntryConfirmed → Text
identifier_of the_event e = e.event_id
identifier_of the_merchant e = e.merchant_id
identifier_of the_entry e = e.entry_id

abbrev pub field_of : Identifier → Field
field_of the_event = event_id
field_of the_merchant = merchant_id
field_of the_entry = entry_id

abbrev pub is_uuid : Text → Bool
is_uuid = matches uuid_pattern

-- the loop over the map, in the order of a run
unfoldable pub check_identifiers : List Identifier → EntryConfirmed → Result Field (Unit {0})
check_identifiers [] e = ok tt
check_identifiers (i ∷ is) e =
    let rest = check_identifiers is e in
    if not (is_uuid (identifier_of i e)) then err (field_of i) else rest

abbrev pub is_bad_original : Option Text → Bool
is_bad_original none = false
is_bad_original (some o) = not (is_uuid o)

-- the tests of `Validate` after the loop
unfoldable pub check_rest : EntryConfirmed → Result Field (Unit {0})
check_rest e = do
  fail_if (is_bad_original e.original_entry_id) original_entry_id
  fail_if (not (text_eq e.event_type entry_confirmed_v1)) event_type
  fail_if (not (leb_ℤ (pos 1) e.merchant_position)) merchant_position
  fail_if (not (text_eq e.entry_type entry_credit) && not (text_eq e.entry_type entry_debit))
      entry_type
  fail_if (not (leb_ℤ (pos 1) e.amount_minor)) amount_minor
  fail_if (not (text_eq e.currency (codes "BRL"))) currency
  fail_if (e.occurred_at == 0) occurred_at
  fail_if (e.confirmed_at == 0) confirmed_at
  fail_if (is_zero_date e.business_date) business_date
  fail_if (not (matches trace_pattern e.traceparent)) traceparent

-- `Validate`
unfoldable pub validate : List Identifier → EntryConfirmed → Result Field (Unit {0})
unfolding check_identifiers check_rest
validate order e = do check_identifiers order e; check_rest e

abbrev pub lower_original : Option Text → Option Text
lower_original none = none
lower_original (some o) = some (lower o)

-- `Canonical`
unfoldable pub canonical : EntryConfirmed → EntryConfirmed
canonical e = record e {
  event_id = lower e.event_id;
  merchant_id = lower e.merchant_id;
  entry_id = lower e.entry_id;
  original_entry_id = lower_original e.original_entry_id;
}

abbrev negate : ℤ → ℤ
negate (pos zero) = pos 0
negate (pos (suc n)) = negsuc n
negate (negsuc n) = pos (suc n)

-- what an entry adds to the credits, the debits and the net of its day
pub record Effect : Type 0 where
  pub credits : ℤ
  pub debits : ℤ
  pub net : ℤ

-- `FinancialEffect`; the amount of a valid event is positive, so its negation does not wrap around
unfoldable pub financial_effect : EntryConfirmed → Effect
financial_effect e =
    if text_eq e.entry_type entry_credit
    then record { credits = e.amount_minor; debits = pos 0; net = e.amount_minor }
    else record { credits = pos 0; debits = e.amount_minor; net = negate e.amount_minor }

-- `json.RawMessage` of original_entry_id: absent, null, a string or anything else
pub data RawOriginal : Type 0 where
  absent null_value other_value : RawOriginal
  string_value : Text → RawOriginal

-- `eventWire`
pub record ReceivedWire : Type 0 where
  pub event_id : Text
  pub event_type : Text
  pub occurred_at : Text
  pub merchant_id : Text
  pub merchant_position : ℤ
  pub entry_id : Text
  pub entry_type : Text
  pub amount_minor : ℤ
  pub currency : Text
  pub business_date : Text
  pub confirmed_at : Text
  pub original_entry_id : RawOriginal
  pub traceparent : Text

-- what the decoder finds after the first JSON value
pub data Trailing : Type 0 where
  at_end second_value garbage : Trailing

-- the libraries that parsing calls: the JSON decoder and RFC 3339 timestamps
pub record Decoder : Type 0 where
  pub decode : Text → Option (ReceivedWire × Trailing)
  pub parse_time : Text → Option ℕ

abbrev pub read_original : RawOriginal → Result Field (Option Text)
read_original absent = err original_entry_id
read_original null_value = ok none
read_original other_value = err original_entry_id
read_original (string_value s) = ok (some s)

-- `ensureSingleJSONValue`
unfoldable pub ensure_single : Trailing → Result Field (Unit {0})
ensure_single at_end = ok tt
ensure_single second_value = err payload
ensure_single garbage = err payload

-- `ParseEntryConfirmed`
unfoldable pub parse_entry_confirmed :
    Decoder → List Identifier → Text → Result Field EntryConfirmed
unfolding ensure_single validate canonical parse
parse_entry_confirmed d order s = do
  (wire, trailing) ← or_fail (d.decode s) payload
  ensure_single trailing
  occurred ← or_fail (d.parse_time wire.occurred_at) occurred_at
  confirmed ← or_fail (d.parse_time wire.confirmed_at) confirmed_at
  date ← or_fail (parse wire.business_date) business_date
  original ← read_original wire.original_entry_id
  let e : EntryConfirmed = record {
    event_id = wire.event_id;
    event_type = wire.event_type;
    occurred_at = occurred;
    merchant_id = wire.merchant_id;
    merchant_position = wire.merchant_position;
    entry_id = wire.entry_id;
    entry_type = wire.entry_type;
    amount_minor = wire.amount_minor;
    currency = wire.currency;
    business_date = date;
    confirmed_at = confirmed;
    original_entry_id = original;
    traceparent = wire.traceparent;
  }
  validate order e
  ok (canonical e)

-- the errors that a projection can end with
pub data Failure : Type 0 where
  validation_error : Field → Failure
  conflict_error : Failure
  other_error : Failure

pub data FailureClass : Type 0 where
  failure_retry failure_dlq : FailureClass

-- `ClassifyFailure`
unfoldable pub classify_failure : Failure → FailureClass
classify_failure (validation_error f) = failure_dlq
classify_failure conflict_error = failure_dlq
classify_failure other_error = failure_retry
