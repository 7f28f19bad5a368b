-- ===== src/Consolidation/Consumer.antt =====
-- services/consolidation/internal/adapters/inbound/rabbitmq/consumer.go: what becomes of one
-- delivery. The table of pending events and the dead letters are those of
-- adapters/outbound/postgres/pending_store.go.
pub mod Acks
pub mod Outcomes
use keyrus.Base.{
  ℕ, zero, suc, ◌+◌, ◌≡◌, ◌<◌, ◌≤◌, ◌⊎◌, inl, inr, refl, sym, ◌∙◌, ap, Bool, true, false, not, ◌&&◌,
  ◌||◌, Option, none, some, List, [], ◌∷◌, arith, ltb, leb, if◌then◌else◌, Result, ok, err,
  Bool-cases,
}
use keyrus.Base.Text.{Text, codes, text_eq, text_eq_refl, lower}
use keyrus.Base.Decimal.{print_int}
use keyrus.Ledger.Outbox.Backoff.{retry_delay}
use keyrus.Consolidation.Event.{
  EntryConfirmed, Field, Failure, validation_error, conflict_error, other_error, FailureClass,
  failure_retry, failure_dlq, classify_failure, is_uuid, entry_confirmed_v1,
}

-- a row of consolidation.event_pending without its times, merchant and date
pub record Pending : Type 0 where
  pub event_id : Text
  pub failure_class : FailureClass
  pub attempts : ℕ
  pub error_code : Text

-- a row of consolidation.dead_letter_event
pub record DeadLetter : Type 0 where
  pub event_id : Option Text
  pub event_type : Text
  pub payload : Text
  pub error_code : Text

pub record PendingTables : Type 0 where
  pub pending : List Pending
  pub dead_letters : List DeadLetter

-- the part of `Config` that decides about deliveries
pub record ConsumerConfig : Type 0 where
  pub max_attempts : ℕ
  pub backoff_base : ℕ
  pub backoff_max : ℕ

pub record Delivery : Type 0 where
  pub message_id : Text
  pub message_type : Text
  pub correlation_id : Text
  -- `fmt.Sprint` of a header
  pub header : Text → Text
  pub body : Text

-- `deliveryAction`, with the delay of a retry
pub data Action : Type 0 where
  ack : Bool → Action
  requeue : ℕ → Action
  dead_letter : Action

-- `backoffDelay`, the same code as retryDelay of the Ledger's outbox
unfoldable pub backoff_delay : (ℕ → ℕ) → ConsumerConfig → ℕ → ℕ
unfolding retry_delay
backoff_delay scaled c attempt = retry_delay scaled c.backoff_base c.backoff_max attempt

-- the attempts of an event that is pending, 0 where it is not
unfoldable pub attempts_of : Text → List Pending → ℕ
attempts_of id [] = 0
attempts_of id (p ∷ ps) =
    let rest = attempts_of id ps in if text_eq p.event_id id then p.attempts else rest

unfoldable pub put_pending : Text → FailureClass → Text → List Pending → List Pending
put_pending id c code [] =
    record { event_id = id; failure_class = c; attempts = 1; error_code = code } ∷ []
put_pending id c code (p ∷ ps) =
    let rest = put_pending id c code ps in
    if text_eq p.event_id id
    then record p { failure_class = c; attempts = p.attempts + 1; error_code = code } ∷ ps
    else p ∷ rest

abbrev pub is_missing : Text → Bool
is_missing [] = true
is_missing (c ∷ s) = false

-- The identifiers are uuid columns, which are compared without regard to case and kept in lower case.
-- `RecordPending`: the attempts after it, 0 where it fails. The failure class is one of two.
unfoldable pub record_pending :
    Bool → Text → FailureClass → Text → PendingTables → ℕ × PendingTables
unfolding attempts_of put_pending
record_pending works id c code t =
    if is_missing id || (is_missing code || not works) then (0, t) else (
      attempts_of (lower id) (put_pending (lower id) c code t.pending),
      record t { pending = put_pending (lower id) c code t.pending },
    )

unfoldable pub without : Text → List Pending → List Pending
without id [] = []
without id (p ∷ ps) = let rest = without id ps in if text_eq p.event_id id then rest else p ∷ rest

-- `ClearPending`
unfoldable pub clear_pending : Bool → Text → PendingTables → PendingTables
unfolding without
clear_pending works id t =
    if is_missing id || not works then t else record t { pending = without (lower id) t.pending }

-- The libraries and the other components that one delivery meets: the JSON schema, the parser, the
-- projector, the two encoders of payloads, the random factor, and whether the statements work.
pub record Ports : Type 0 where
  pub schema_accepts : Text → Bool
  pub parse_event : Text → Result Field EntryConfirmed
  pub apply : EntryConfirmed → Result Failure Bool
  pub marshal_event : EntryConfirmed → Text
  pub as_json : Text → Text
  pub scaled : ℕ → ℕ
  pub pending_works : Bool
  pub dead_letter_works : Bool
  pub clear_works : Bool

abbrev pub lower_id : Option Text → Option Text
lower_id none = none
lower_id (some id) = some (lower id)

-- `identityPointer`
unfoldable pub identity_pointer : Text → Option Text
identity_pointer value = if is_uuid value then some value else none

-- `validateDeliveryIdentity`
unfoldable pub has_identity : Delivery → EntryConfirmed → Bool
has_identity d e =
    text_eq d.message_id e.event_id
    && (text_eq d.message_type e.event_type
        && (text_eq d.correlation_id e.entry_id
            && (text_eq (d.header (codes "event_id")) e.event_id
                && (text_eq (d.header (codes "event_type")) e.event_type
                    && (text_eq (d.header (codes "merchant_id")) e.merchant_id
                        && (text_eq (d.header (codes "merchant_position"))
                              (print_int e.merchant_position)
                            && (text_eq (d.header (codes "entry_id")) e.entry_id
                                && text_eq (d.header (codes "traceparent")) e.traceparent)))))))

module _ (p : Ports) (c : ConsumerConfig) where
  -- `RecordDeadLetter`
  unfoldable pub record_dead_letter :
      Option Text → Text → Text → Text → PendingTables → PendingTables
  record_dead_letter id type payload code t =
      if is_missing payload || (is_missing code || not p.dead_letter_works) then t else record t {
        dead_letters =
            record {
              event_id = lower_id id;
              event_type = type;
              payload = p.as_json payload;
              error_code = code;
            }
            ∷ t.dead_letters;
      }

  abbrev pub note_dlq : Option Text → Text → PendingTables → PendingTables
  note_dlq none code t = t
  note_dlq (some id) code t = (record_pending p.pending_works id failure_dlq code t).1

  -- `escalate`
  unfoldable pub escalate :
      Option Text → Text → Text → Text → PendingTables → Action × PendingTables
  unfolding record_dead_letter record_pending
  escalate id type payload code t =
      (dead_letter, note_dlq id code (record_dead_letter id type payload code t))

  -- the end of `classifyApplyFailure`, after the attempt is recorded
  unfoldable pub retry_or_escalate : EntryConfirmed → ℕ × PendingTables → Action × PendingTables
  unfolding escalate backoff_delay
  retry_or_escalate e (attempts, t) =
      if leb c.max_attempts attempts
      then escalate (some e.event_id) e.event_type (p.marshal_event e)
          (codes "retry_attempts_exhausted") t
      else (requeue (backoff_delay p.scaled c attempts), t)

  -- `classifyApplyFailure`
  unfoldable pub classify_apply_failure :
      EntryConfirmed → Failure → PendingTables → Action × PendingTables
  unfolding retry_or_escalate classify_failure
  classify_apply_failure e failure t = elim (classify_failure failure) [
    | failure_dlq ↦ escalate (some e.event_id) [] (p.marshal_event e) (codes "financial_conflict") t
    | failure_retry ↦
        retry_or_escalate e (
          record_pending p.pending_works e.event_id failure_retry (codes "transient_apply_error") t)
  ]

  -- `processDelivery` once the event is parsed and its identity agrees
  unfoldable pub apply_event : EntryConfirmed → PendingTables → Action × PendingTables
  unfolding classify_apply_failure clear_pending
  apply_event e t = elim (p.apply e) [
    | err failure ↦ classify_apply_failure e failure t
    | ok duplicate ↦ (ack duplicate, clear_pending p.clear_works e.event_id t)
  ]

  -- `processDelivery` without the hooks of the tests
  unfoldable pub process_delivery : Delivery → PendingTables → Action × PendingTables
  unfolding apply_event identity_pointer has_identity
  process_delivery d t =
      let claimed = identity_pointer d.message_id in
      if not (text_eq d.message_type entry_confirmed_v1)
      then escalate claimed d.message_type d.body (codes "unsupported_event_type") t
      else if not (p.schema_accepts d.body)
      then escalate claimed d.message_type d.body (codes "schema_violation") t
      else elim (p.parse_event d.body) [
        | err f ↦ escalate claimed d.message_type d.body (codes "domain_validation") t
        | ok e ↦
            if has_identity d e
            then apply_event e t
            else escalate (some e.event_id) d.message_type d.body (codes "identity_mismatch") t
      ]
