-- ===== src/Consolidation/Consumer/Acks.antt =====
-- Which deliveries are acknowledged, and what that changes.
use keyrus.Base.{
  ◌≡◌, ◌≢◌, ◌↔◌, inl, inr, refl, sym, ◌∙◌, ap, subst, Bool, true, false, Option, none, List, [],
  ◌∷◌, find, arith, ok, Bool-cases, Result-cases,
}
use keyrus.Base.Text.{Text, codes, text_eq, text_eq_refl, text_eq_sound, lower}
use keyrus.Base.Decimal.{print_int}
use keyrus.Consolidation.Event.{EntryConfirmed, classify_failure, entry_confirmed_v1}
use keyrus.Consolidation.Consumer.{
  Pending, PendingTables, ConsumerConfig, Delivery, Action, ack, is_missing, without, clear_pending,
  Ports, has_identity, escalate, retry_or_escalate, classify_apply_failure, apply_event,
  process_delivery,
}

-- the properties and the headers of a delivery name this event
pub record Carries (d : Delivery) (e : EntryConfirmed) : Type 0 where
  pub message_id : d.message_id ≡ e.event_id
  pub message_type : d.message_type ≡ e.event_type
  pub correlation_id : d.correlation_id ≡ e.entry_id
  pub event_id : d.header (codes "event_id") ≡ e.event_id
  pub event_type : d.header (codes "event_type") ≡ e.event_type
  pub merchant_id : d.header (codes "merchant_id") ≡ e.merchant_id
  pub position : d.header (codes "merchant_position") ≡ print_int e.merchant_position
  pub entry_id : d.header (codes "entry_id") ≡ e.entry_id
  pub traceparent : d.header (codes "traceparent") ≡ e.traceparent

-- when processDelivery acknowledges
pub record Accepts (p : Ports) (d : Delivery) (duplicate : Bool) (e : EntryConfirmed) : Type 0 where
  pub supported : d.message_type ≡ entry_confirmed_v1
  pub fits : p.schema_accepts d.body ≡ true
  pub read : p.parse_event d.body ≡ ok e
  pub carried : Carries d e
  pub applied : p.apply e ≡ ok duplicate

-- the row of an event
abbrev pub pending_row : Text → PendingTables → Option Pending
pending_row id t = find (λ (p : Pending). text_eq p.event_id id) t.pending

-- the tables once an event is no longer pending
pub record IsCleared (id : Text) (t u : PendingTables) : Type 0 where
  pub gone : pending_row id u ≡ none
  pub others : (k : Text) → k ≢ id → pending_row k u ≡ pending_row k t
  pub letters : u.dead_letters ≡ t.dead_letters

has_identity-Carries : (d : Delivery) (e : EntryConfirmed) → has_identity d e ≡ true → Carries d e
unfolding has_identity
has_identity-Carries d e h = record {
  message_id = text_eq_sound d.message_id e.event_id (ground (arith, h));
  message_type = text_eq_sound d.message_type e.event_type (ground (arith, h));
  correlation_id = text_eq_sound d.correlation_id e.entry_id (ground (arith, h));
  event_id = text_eq_sound (d.header (codes "event_id")) e.event_id (ground (arith, h));
  event_type = text_eq_sound (d.header (codes "event_type")) e.event_type (ground (arith, h));
  merchant_id = text_eq_sound (d.header (codes "merchant_id")) e.merchant_id (ground (arith, h));
  position =
      text_eq_sound (d.header (codes "merchant_position")) (print_int e.merchant_position)
        (ground (arith, h));
  entry_id = text_eq_sound (d.header (codes "entry_id")) e.entry_id (ground (arith, h));
  traceparent = text_eq_sound (d.header (codes "traceparent")) e.traceparent (ground (arith, h));
}

same_text : (s t : Text) → s ≡ t → text_eq s t ≡ true
same_text s t e = rw e (text_eq_refl t)

Carries-has_identity : (d : Delivery) (e : EntryConfirmed) → Carries d e → has_identity d e ≡ true
unfolding has_identity
Carries-has_identity d e c =
    let a1 = same_text d.message_id e.event_id c.message_id in
    let a2 = same_text d.message_type e.event_type c.message_type in
    let a3 = same_text d.correlation_id e.entry_id c.correlation_id in
    let a4 = same_text (d.header (codes "event_id")) e.event_id c.event_id in
    let a5 = same_text (d.header (codes "event_type")) e.event_type c.event_type in
    let a6 = same_text (d.header (codes "merchant_id")) e.merchant_id c.merchant_id in
    let a7 =
      same_text (d.header (codes "merchant_position")) (print_int e.merchant_position) c.position in
    let a8 = same_text (d.header (codes "entry_id")) e.entry_id c.entry_id in
    let a9 = same_text (d.header (codes "traceparent")) e.traceparent c.traceparent in
    rw (a1, a2, a3, a4, a5, a6, a7, a8, a9) refl

find-without :
    (id : Text) (ps : List Pending)
    → find (λ (p : Pending). text_eq p.event_id id) (without id ps) ≡ none
unfolding without
find-without id [] = refl
find-without id (p ∷ ps) = elim (Bool-cases (text_eq p.event_id id)) [
  | inl here ↦ rw here (find-without id ps)
  | inr other ↦ rw (other, other) (find-without id ps)
]

find-without_other :
    (k id : Text) (ps : List Pending)
    → k ≢ id
    → find (λ (p : Pending). text_eq p.event_id k) (without id ps)
      ≡ find (λ (p : Pending). text_eq p.event_id k) ps
unfolding without
find-without_other k id [] h = refl
find-without_other k id (p ∷ ps) h = elim (Bool-cases (text_eq p.event_id k)) [
  | inl mine ↦
      let other : text_eq p.event_id id ≡ false = elim (Bool-cases (text_eq p.event_id id)) [
        | inr o ↦ o
        | inl s ↦ absurd (h (sym (text_eq_sound p.event_id k mine) ∙ text_eq_sound p.event_id id s))
      ] in
      rw (other, mine) refl
  | inr passed ↦ elim (Bool-cases (text_eq p.event_id id)) [
    | inl here ↦ rw (here, passed) (find-without_other k id ps h)
    | inr other ↦ rw (other, passed) (find-without_other k id ps h)
  ]
]

clear_pending-IsCleared :
    (id : Text) (t : PendingTables)
    → is_missing id ≡ false
    → IsCleared (lower id) t (clear_pending true id t)
unfolding clear_pending
clear_pending-IsCleared id t named =
    rw (clear_pending, named)
      (record {
        gone = find-without (lower id) t.pending;
        others = λ k h. find-without_other k (lower id) t.pending h;
        letters = refl;
      })

clear_pending-fails : (id : Text) (t : PendingTables) → clear_pending false id t ≡ t
unfolding clear_pending
clear_pending-fails id t = ground arith

Accepts-process_delivery :
    (p : Ports) (c : ConsumerConfig) (d : Delivery) (t : PendingTables) (duplicate : Bool)
    (e : EntryConfirmed)
    → Accepts p d duplicate e
    → process_delivery p c d t ≡ (ack duplicate, clear_pending p.clear_works e.event_id t)
unfolding process_delivery apply_event
Accepts-process_delivery p c d t duplicate e a =
    let typed = same_text d.message_type entry_confirmed_v1 a.supported in
    rw
      (
        process_delivery,
        typed,
        a.fits,
        a.read,
        Carries-has_identity d e a.carried,
        apply_event,
        a.applied,
      )
      refl

process_delivery-Accepts :
    (p : Ports) (c : ConsumerConfig) (d : Delivery) (t : PendingTables) (duplicate : Bool)
    → (process_delivery p c d t).0 ≡ ack duplicate
    → (e : EntryConfirmed) × Accepts p d duplicate e
unfolding process_delivery escalate apply_event classify_apply_failure retry_or_escalate
    classify_failure
process_delivery-Accepts p c d t duplicate h =
    elim (Bool-cases (text_eq d.message_type entry_confirmed_v1)) [
      | inr other ↦ ground (arith, other, h)
      | inl typed ↦ elim (Bool-cases (p.schema_accepts d.body)) [
        | inr bad ↦ ground (arith, typed, bad, h)
        | inl fits ↦ elim (Result-cases (p.parse_event d.body)) [
          | inl (f, bad) ↦ ground (arith, typed, fits, bad, h)
          | inr (e, read) ↦ elim (Bool-cases (has_identity d e)) [
            | inr bad ↦ ground (arith, typed, fits, read, bad, h)
            | inl same ↦ elim (Result-cases (p.apply e)) [
              | inl (failure, bad) ↦ ground (arith, typed, fits, read, same, bad, h)
              | inr (b, applied) ↦
                  let given : b ≡ duplicate = ground (arith, typed, fits, read, same, applied, h) in
                  (
                    e,
                    record {
                      supported = text_eq_sound d.message_type entry_confirmed_v1 typed;
                      fits = fits;
                      read = read;
                      carried = has_identity-Carries d e same;
                      applied = applied ∙ ap ok given;
                    },
                  )
            ]
          ]
        ]
      ]
    ]

-- A delivery is acknowledged exactly when its type is the supported one, the schema accepts it, it is
-- parsed into an event that its message properties and its headers name, and the projector has applied
-- that event. Then no dead letter changes, and where the table of pending events is available the
-- event has no row in it and every other event has the row that it had; where it is not, nothing
-- changes.
pub process_delivery-acks :
    (p : Ports) (c : ConsumerConfig) (d : Delivery) (t : PendingTables) (duplicate : Bool)
    → (((process_delivery p c d t).0 ≡ ack duplicate)
        ↔ ((e : EntryConfirmed) × Accepts p d duplicate e))
      × ((e : EntryConfirmed)
          → Accepts p d duplicate e
          → is_missing e.event_id ≡ false
          → (p.clear_works ≡ true → IsCleared (lower e.event_id) t (process_delivery p c d t).1)
            × (p.clear_works ≡ false → (process_delivery p c d t).1 ≡ t))
process_delivery-acks p c d t duplicate = (
  (
    process_delivery-Accepts p c d t duplicate,
    λ (e, a).
        ap (λ (x : Action × PendingTables). x.0) (Accepts-process_delivery p c d t duplicate e a),
  ),
  λ e a named.
      let after =
        ap (λ (x : Action × PendingTables). x.1) (Accepts-process_delivery p c d t duplicate e a) in
      (
        λ up.
            subst (IsCleared (lower e.event_id) t)
              (sym (after ∙ ap (λ b. clear_pending b e.event_id t) up))
              (clear_pending-IsCleared e.event_id t named),
        λ down.
            after ∙ ap (λ b. clear_pending b e.event_id t) down ∙ clear_pending-fails e.event_id t,
      ),
)
