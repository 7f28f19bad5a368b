-- ===== src/Consolidation/Tests.antt =====
-- Runs of the consumer's rules on an event of the Ledger.
mod Answered
mod Deliveries
mod Projections
mod Reconciled
mod Replayed
use keyrus.Base.{
  ℕ, ◌≡◌, ◌↔◌, ◌≤◌, refl, Bool, true, false, not, Option, none, some, List, [], ◌∷◌, arith, ok,
  if◌then◌else◌,
}
use keyrus.Base.Int.{pos}
use keyrus.Base.Text.{Text, codes}
use keyrus.Base.Date.{format, parse}
use keyrus.Ledger.Entry.{Entry}
use keyrus.Ledger.Entry.Rules.{IsValidEntry}
use keyrus.Ledger.Wire.{event_wire}
use keyrus.Consolidation.Event.{
  Decoder, ReceivedWire, at_end, EntryConfirmed, Identifier, the_event, the_merchant, the_entry,
  validate, canonical, parse_entry_confirmed,
}
use keyrus.Consolidation.Event.Rules.{IsEvent, VisitsAll, validate_lem}
use keyrus.Consolidation.Event.Canonical.{parse_entry_confirmed-IsEvent}
use keyrus.Consolidation.Contract.{received_wire, received, parse-event_wire}
use keyrus.Consolidation.Query.{MerchantProgress, classify, classify-definitive}

abbrev order : List Identifier
order = the_merchant ∷ the_event ∷ the_entry ∷ []

order-VisitsAll : VisitsAll order
order-VisitsAll the_event = refl
order-VisitsAll the_merchant = refl
order-VisitsAll the_entry = refl

abbrev sale : Entry
sale = record {
  id = codes "0195a1b2-c3d4-7e5f-8a9b-000000000001";
  merchant_id = codes "0195A1B2-c3d4-7e5f-8a9b-0c1d2e3f4a5b";
  position = 1;
  entry_type = codes "credit";
  money = record { minor = pos 1250 };
  business_date = record { year = 2026; month = 3; day = 10 };
  description = [];
  confirmed_at = 1000;
  original_entry_id = none;
}

sale-IsValidEntry : IsValidEntry sale
sale-IsValidEntry = record {
  named = refl;
  owned = refl;
  positioned = omega arith;
  typed = refl;
  positive = refl;
  dated = refl;
  confirmed = omega arith;
  described = omega arith;
}

abbrev sale_event : Text
sale_event = codes "0195a1b2-c3d4-7e5f-8a9b-000000000002"

abbrev trace : Text
trace = codes "00-4bf92f3577b34da6a3ce929d0e0e4736-00f067aa0ba902b7-01"

abbrev sale_wire : ReceivedWire
sale_wire = received_wire (λ t. t ∷ []) (event_wire sale_event sale 1000 trace)

abbrev read_time : Text → Option ℕ
read_time [] = none
read_time (t ∷ s) = some t

abbrev decoder : Decoder
decoder = record { decode = λ s. some (sale_wire, at_end); parse_time = read_time }

abbrev sale_confirmed : EntryConfirmed
sale_confirmed = received (event_wire sale_event sale 1000 trace) sale.business_date

event_run : parse_entry_confirmed decoder order [] ≡ ok (canonical sale_confirmed)
unfolding keyrus.Base.Pattern.matches keyrus.Ledger.Traceparent.validate_traceparent parse format
    keyrus.Base.Decimal.print_nat keyrus.Base.Decimal.pad2
event_run =
    parse-event_wire decoder (λ t. t ∷ []) order sale_event sale 1000 trace [] order-VisitsAll
      sale-IsValidEntry refl refl refl refl (omega arith) refl (λ t. refl) refl refl (omega arith)

parse_wire_example : parse_entry_confirmed decoder order [] ≡ ok (canonical sale_confirmed)
unfolding keyrus.Base.Pattern.matches keyrus.Ledger.Traceparent.validate_traceparent parse format
    keyrus.Base.Decimal.print_nat keyrus.Base.Decimal.pad2
parse_wire_example =
    parse-event_wire decoder (λ t. t ∷ []) order sale_event sale 1000 trace [] order-VisitsAll
      sale-IsValidEntry refl refl refl refl (omega arith) refl (λ t. refl) refl refl (omega arith)

parse-IsEvent_example :
    IsEvent (canonical sale_confirmed)
    × (canonical (canonical sale_confirmed) ≡ canonical sale_confirmed)
parse-IsEvent_example =
    parse_entry_confirmed-IsEvent decoder order [] (canonical sale_confirmed) order-VisitsAll
      event_run

validate_example : (validate order sale_confirmed ≡ ok tt) ↔ IsEvent sale_confirmed
validate_example = validate_lem order sale_confirmed order-VisitsAll

abbrev progress : MerchantProgress
progress = record { source_position = 7; applied_position = 7; first_gap = none; updated_at = 5 }

abbrev known : Option (ℕ × ℕ)
known = some (7, 100)

classify_example : ((classify progress false known 200).definitive ≡ true) ↔ (
    (source : ℕ) × (observed : ℕ) × (known ≡ some (source, observed))
    × (false ≡ false)
    × (progress.first_gap ≡ none)
    × (progress.applied_position ≡ progress.source_position)
    × (source ≤ progress.applied_position))
classify_example = classify-definitive progress false known 200
