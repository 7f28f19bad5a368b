-- ===== src/Consolidation/Contract.antt =====
-- The contract between the two services: what insertOutbox of the Ledger
-- (services/ledger/internal/application/service.go) writes, and what ParseEntryConfirmed of the
-- consumer (services/consolidation/internal/domain/event.go) reads.
use keyrus.Base.{
  ℕ, ◌≡◌, ◌<◌, refl, sym, ◌∙◌, Bool, true, false, not, ◌&&◌, Option, none, some, List, [], ◌∷◌,
  arith, ◌==◌, if◌then◌else◌, ok, err,
}
use keyrus.Base.Int.{ℤ, pos, negsuc, leb_ℤ}
use keyrus.Base.Text.{Text}
use keyrus.Base.Date.{Date, is_date}
use keyrus.Base.Date.Layout.{parse-format}
use keyrus.Base.Hex.{is_hex, is_lower_hex, is_lower_hex-is_hex}
use keyrus.Base.Pattern.{
  Pattern, matches, times, is_dash, Stricter, Stricter-times, matches-Stricter,
}
use keyrus.Ledger.Errors.{Fallible, invalid_argument}
use keyrus.Ledger.Identifier.{EntryId}
use keyrus.Ledger.Identifier.Generate.{v7_pattern, is_variant}
use keyrus.Ledger.Traceparent.{
  validate_traceparent, validate_traceparent-pattern, traceparent_pattern, is_reserved,
}
use keyrus.Ledger.Entry.{Entry}
use keyrus.Ledger.Entry.Rules.{IsValidEntry}
use keyrus.Ledger.Wire.{EventWire, event_wire}
use keyrus.Consolidation.Event.{
  EntryConfirmed, Identifier, the_event, the_merchant, the_entry, identifier_of, is_uuid,
  uuid_pattern, trace_pattern, is_bad_original, is_version, is_rfc_variant, validate, canonical,
  Decoder, ReceivedWire, read_original, at_end, null_value, string_value, RawOriginal,
  ensure_single, parse_entry_confirmed,
}
use keyrus.Consolidation.Event.Rules.{IsEvent, VisitsAll, validate_lem}

same_dash : (c : ℕ) → is_dash c ≡ true → is_dash c ≡ true
same_dash c h = h

seven-is_version : (c : ℕ) → (c == b'7') ≡ true → is_version c ≡ true
seven-is_version c h = ground (arith, h)

variant-is_rfc_variant : (c : ℕ) → is_variant c ≡ true → is_rfc_variant c ≡ true
variant-is_rfc_variant c h = ground (arith, h)

v7-Stricter-uuid : Stricter v7_pattern uuid_pattern
v7-Stricter-uuid =
    let strict = is_lower_hex-is_hex in
    let l5 : Pattern = is_dash ∷ times 12 is_lower_hex [] in
    let h5 : Pattern = is_dash ∷ times 12 is_hex [] in
    let s5 : Stricter l5 h5 = (same_dash, Stricter-times 12 is_lower_hex is_hex [] [] strict tt) in
    let l4 : Pattern = is_dash ∷ is_variant ∷ times 3 is_lower_hex l5 in
    let h4 : Pattern = is_dash ∷ is_rfc_variant ∷ times 3 is_hex h5 in
    let s4 : Stricter l4 h4 =
      (same_dash, (variant-is_rfc_variant, Stricter-times 3 is_lower_hex is_hex l5 h5 strict s5)) in
    let l3 : Pattern = is_dash ∷ (λ c. c == b'7') ∷ times 3 is_lower_hex l4 in
    let h3 : Pattern = is_dash ∷ is_version ∷ times 3 is_hex h4 in
    let s3 : Stricter l3 h3 =
      (same_dash, (seven-is_version, Stricter-times 3 is_lower_hex is_hex l4 h4 strict s4)) in
    let l2 : Pattern = is_dash ∷ times 4 is_lower_hex l3 in
    let h2 : Pattern = is_dash ∷ times 4 is_hex h3 in
    let s2 : Stricter l2 h2 = (same_dash, Stricter-times 4 is_lower_hex is_hex l3 h3 strict s3) in
    Stricter-times 8 is_lower_hex is_hex l2 h2 strict s2

-- An identifier that the Ledger makes is a UUID for the consumer.
v7-is_uuid : (s : Text) → matches v7_pattern s ≡ true → is_uuid s ≡ true
v7-is_uuid s h = matches-Stricter v7_pattern uuid_pattern s v7-Stricter-uuid h

first_test :
    (m r : Bool)
    → ◌≡◌ {A = Fallible (Unit {0})} (if m && not r then ok tt else err invalid_argument) (ok tt)
    → m ≡ true
first_test m r h = ground (arith, h)

-- A trace parent that the Ledger accepts has the consumer's pattern.
trace-matches : (s : Text) → validate_traceparent s ≡ ok tt → matches trace_pattern s ≡ true
trace-matches s h =
    first_test (matches traceparent_pattern s) (is_reserved s)
      (sym (validate_traceparent-pattern s) ∙ h)

abbrev pub raw_original : Option Text → RawOriginal
raw_original none = null_value
raw_original (some o) = string_value o

-- the payload of the Ledger's event as the decoder of the consumer finds it
abbrev pub received_wire : (ℕ → Text) → EventWire → ReceivedWire
received_wire print_time w = record {
  event_id = w.event_id;
  event_type = w.event_type;
  occurred_at = print_time w.occurred_at;
  merchant_id = w.merchant_id;
  merchant_position = pos w.merchant_position;
  entry_id = w.entry_id;
  entry_type = w.entry_type;
  amount_minor = w.amount_minor;
  currency = w.currency;
  business_date = w.business_date;
  confirmed_at = print_time w.confirmed_at;
  original_entry_id = raw_original w.original_entry_id;
  traceparent = w.traceparent;
}

-- the event that the consumer makes of it
abbrev pub received : EventWire → Date → EntryConfirmed
received w date = record {
  event_id = w.event_id;
  event_type = w.event_type;
  occurred_at = w.occurred_at;
  merchant_id = w.merchant_id;
  merchant_position = pos w.merchant_position;
  entry_id = w.entry_id;
  entry_type = w.entry_type;
  amount_minor = w.amount_minor;
  currency = w.currency;
  business_date = date;
  confirmed_at = w.confirmed_at;
  original_entry_id = w.original_entry_id;
  traceparent = w.traceparent;
}

at_least_one : (z : ℤ) → leb_ℤ z (pos 0) ≡ false → leb_ℤ (pos 1) z ≡ true
at_least_one (pos n) h = ground (arith, h)
at_least_one (negsuc n) h = ground (arith, h)

-- The event of a valid entry meets the rules of the consumer.
pub received-IsEvent :
    (event_id : EntryId) (e : Entry) (now : ℕ) (traceparent : Text)
    → IsValidEntry e
    → matches v7_pattern event_id ≡ true
    → matches v7_pattern e.id ≡ true
    → is_uuid e.merchant_id ≡ true
    → is_bad_original e.original_entry_id ≡ false
    → 0 < now
    → validate_traceparent traceparent ≡ ok tt
    → IsEvent (received (event_wire event_id e now traceparent) e.business_date)
unfolding event_wire
received-IsEvent event_id e now traceparent v new_event new_entry merchant original later trace =
    record {
      identified = each;
      refers = original;
      versioned = refl;
      positioned = ground (arith, v.positioned);
      typed = ground (arith, v.typed);
      positive = at_least_one e.money.minor v.positive;
      in_reais = refl;
      occurred = ground (arith, later);
      confirmed = ground (arith, v.confirmed);
      dated = v.dated;
      traced = trace-matches traceparent trace;
    }
  where
    each :
        (i : Identifier)
        → is_uuid
            (identifier_of i (received (event_wire event_id e now traceparent) e.business_date))
          ≡ true
    each the_event = v7-is_uuid event_id new_event
    each the_merchant = merchant
    each the_entry = v7-is_uuid e.id new_entry

read-raw : (o : Option Text) → read_original (raw_original o) ≡ ok o
read-raw none = refl
read-raw (some o) = refl

-- An event that the Ledger writes for a valid entry is read by the consumer, as the canonical form of
-- what was written: its own identifiers are new, the merchant and the original are UUIDs of a version
-- from 1 to 8, the trace parent passed the test of the Ledger, JSON and timestamps are read as they
-- were written, and the business date is one of the calendar before the year ten thousand.
pub parse-event_wire :
    (d : Decoder) (print_time : ℕ → Text) (order : List Identifier) (event_id : EntryId) (e : Entry)
    (now : ℕ) (traceparent payload : Text)
    → VisitsAll order
    → IsValidEntry e
    → matches v7_pattern event_id ≡ true
    → matches v7_pattern e.id ≡ true
    → is_uuid e.merchant_id ≡ true
    → is_bad_original e.original_entry_id ≡ false
    → 0 < now
    → validate_traceparent traceparent ≡ ok tt
    → ((t : ℕ) → d.parse_time (print_time t) ≡ some t)
    → d.decode payload
      ≡ some (received_wire print_time (event_wire event_id e now traceparent), at_end)
    → is_date e.business_date ≡ true
    → e.business_date.year < 10000
    → parse_entry_confirmed d order payload
      ≡ ok (canonical (received (event_wire event_id e now traceparent) e.business_date))
unfolding parse_entry_confirmed ensure_single event_wire
parse-event_wire d print_time order event_id e now traceparent payload all v new_event new_entry
      merchant original later trace times read real short =
    let good : validate order (received (event_wire event_id e now traceparent) e.business_date)
        ≡ ok tt =
      (validate_lem order (received (event_wire event_id e now traceparent) e.business_date) all).1
        (received-IsEvent event_id e now traceparent v new_event new_entry merchant original later
          trace) in
    let referred = read-raw e.original_entry_id in
    let dates = parse-format e.business_date real short in
    rw (read, parse_entry_confirmed, times now, times e.confirmed_at, dates, referred, good) refl
