-- ===== src/Consolidation/Consumer/Outcomes.antt =====
-- How often a delivery can come back.
use keyrus.Base.{
  ◌+◌, ◌≡◌, ◌<◌, ◌≤◌, ◌⊎◌, inl, inr, refl, true, false, List, [], ◌∷◌, arith, leb, Bool-cases,
}
use keyrus.Base.Text.{Text, codes, text_eq, text_eq_refl, lower}
use keyrus.Consolidation.Event.{
  EntryConfirmed, other_error, FailureClass, failure_retry, classify_failure,
}
use keyrus.Consolidation.Consumer.{
  Pending, PendingTables, ConsumerConfig, requeue, dead_letter, attempts_of, put_pending,
  record_pending, is_missing, Ports, escalate, retry_or_escalate, classify_apply_failure,
  backoff_delay,
}

attempts_of-put_pending :
    (id : Text) (c : FailureClass) (code : Text) (ps : List Pending)
    → attempts_of id (put_pending id c code ps) ≡ attempts_of id ps + 1
unfolding attempts_of put_pending
attempts_of-put_pending id c code [] = rw (text_eq_refl id) refl
attempts_of-put_pending id c code (p ∷ ps) = elim (Bool-cases (text_eq p.event_id id)) [
  | inl here ↦ ground (arith, here)
  | inr later ↦ ground (arith, later, attempts_of-put_pending id c code ps)
]

-- While the table of pending events is available, a transient failure of an event with an identifier
-- either makes it a dead letter, and then its count of attempts has reached the maximum, or the event
-- comes back after the delay of its attempt, and then its count has grown by one and is below the
-- maximum.
pub classify_apply_failure-counts :
    (p : Ports) (c : ConsumerConfig) (e : EntryConfirmed) (t : PendingTables)
    → p.pending_works ≡ true
    → is_missing e.event_id ≡ false
    → ((classify_apply_failure p c e other_error t).0 ≡ dead_letter)
        × (c.max_attempts ≤ attempts_of (lower e.event_id) t.pending + 1)
      ⊎ ((classify_apply_failure p c e other_error t).0
          ≡ requeue (backoff_delay p.scaled c (attempts_of (lower e.event_id) t.pending + 1)))
        × (attempts_of (lower e.event_id) (classify_apply_failure p c e other_error t).1.pending
            ≡ attempts_of (lower e.event_id) t.pending + 1)
        × (attempts_of (lower e.event_id) t.pending + 1 < c.max_attempts)
unfolding classify_apply_failure retry_or_escalate classify_failure record_pending escalate
classify_apply_failure-counts p c e t works named =
    let n = attempts_of (lower e.event_id) t.pending + 1 in
    let counted =
      attempts_of-put_pending (lower e.event_id) failure_retry (codes "transient_apply_error")
        t.pending in
    elim (Bool-cases (leb c.max_attempts n)) [
      | inl last ↦ inl (rw (named, works, counted, last) refl, ground (arith, last))
      | inr more ↦ inr (
        rw (named, works, counted, more) refl,
        rw (named, works, counted, more) counted,
        ground (arith, more),
      )
    ]
