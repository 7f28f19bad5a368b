-- ===== src/Consolidation/Tests/Deliveries.antt =====
-- Runs of the consumer on deliveries of one event.
use keyrus.Base.{
  ◌↔◌, ℕ, ◌+◌, ◌≡◌, ◌<◌, ◌≤◌, ◌⊎◌, refl, Bool, true, false, Option, none, some, List, [], ◌∷◌, ok,
  err, arith, if◌then◌else◌,
}
use keyrus.Base.Int.{pos}
use keyrus.Base.Text.{Text, codes, text_eq, lower}
use keyrus.Consolidation.Event.{EntryConfirmed, other_error, entry_confirmed_v1}
use keyrus.Consolidation.Consumer.{
  PendingTables, ConsumerConfig, Delivery, ack, requeue, dead_letter, attempts_of, is_missing,
  Ports, classify_apply_failure, process_delivery, backoff_delay,
}
use keyrus.Consolidation.Consumer.Outcomes.{classify_apply_failure-counts}
use keyrus.Consolidation.Consumer.Acks.{Accepts, IsCleared, process_delivery-acks}

abbrev event : EntryConfirmed
event = record {
  event_id = codes "e1";
  event_type = entry_confirmed_v1;
  occurred_at = 1000;
  merchant_id = codes "m1";
  merchant_position = pos 1;
  entry_id = codes "n1";
  entry_type = codes "credit";
  amount_minor = pos 1250;
  currency = codes "BRL";
  business_date = record { year = 2026; month = 3; day = 10 };
  confirmed_at = 1000;
  original_entry_id = none;
  traceparent = codes "t1";
}

abbrev header_of : Text → Text
header_of name =
    if text_eq name (codes "event_id")
    then codes "e1"
    else if text_eq name (codes "event_type")
    then entry_confirmed_v1
    else if text_eq name (codes "merchant_id")
    then codes "m1"
    else if text_eq name (codes "merchant_position")
    then codes "1"
    else if text_eq name (codes "entry_id")
    then codes "n1"
    else codes "t1"

abbrev delivery : Delivery
delivery = record {
  message_id = codes "e1";
  message_type = entry_confirmed_v1;
  correlation_id = codes "n1";
  header = header_of;
  body = codes "{}";
}

abbrev ports : Ports
ports = record {
  schema_accepts = λ s. true;
  parse_event = λ s. ok event;
  apply = λ e. ok false;
  marshal_event = λ e. e.event_id;
  as_json = λ s. s;
  scaled = λ d. d;
  pending_works = true;
  dead_letter_works = true;
  clear_works = true;
}

abbrev config : ConsumerConfig
config = record { max_attempts = 3; backoff_base = 100; backoff_max = 1000 }

abbrev no_pending : PendingTables
no_pending = record { pending = []; dead_letters = [] }

process_delivery_example :
    (((process_delivery ports config delivery no_pending).0 ≡ ack false)
      ↔ ((e : EntryConfirmed) × Accepts ports delivery false e))
    × ((e : EntryConfirmed)
        → Accepts ports delivery false e
        → is_missing e.event_id ≡ false
        → (ports.clear_works ≡ true
            → IsCleared
                (lower e.event_id)
                no_pending
                (process_delivery ports config delivery no_pending).1)
          × (ports.clear_works ≡ false
              → (process_delivery ports config delivery no_pending).1 ≡ no_pending))
process_delivery_example = process_delivery-acks ports config delivery no_pending false

-- that delivery is acknowledged
delivery-run : process_delivery ports config delivery no_pending ≡ (ack false, no_pending)
unfolding process_delivery keyrus.Base.Decimal.print_int
delivery-run = refl

classify_failure_example :
    ((classify_apply_failure ports config event other_error no_pending).0 ≡ dead_letter)
      × (config.max_attempts ≤ attempts_of (lower event.event_id) no_pending.pending + 1)
    ⊎ ((classify_apply_failure ports config event other_error no_pending).0
        ≡ requeue (
            backoff_delay ports.scaled config
              (attempts_of (lower event.event_id) no_pending.pending + 1)))
      × (attempts_of
            (lower event.event_id)
            (classify_apply_failure ports config event other_error no_pending).1.pending
          ≡ attempts_of (lower event.event_id) no_pending.pending + 1)
      × (attempts_of (lower event.event_id) no_pending.pending + 1 < config.max_attempts)
classify_failure_example = classify_apply_failure-counts ports config event no_pending refl refl
