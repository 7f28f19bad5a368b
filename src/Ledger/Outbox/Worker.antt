-- ===== src/Ledger/Outbox/Worker.antt =====
-- services/ledger/internal/outbox/worker.go: the worker that publishes the events it claims.
pub mod Publish
use keyrus.Base.{
  ℕ, suc, ◌+◌, ◌^◌, ◌≤◌, ◌≡◌, refl, sym, ◌∙◌, ap, Bool, true, false, ◌&&◌, ◌||◌, Option, none, some,
  List, [], ◌∷◌, ltb, leb, if◌then◌else◌, arith, ok, err, length, Bool-cases, Option-cases, inl,
  inr, any, find, map,
}
use keyrus.Base.Text.{Text}
use keyrus.Ledger.Outbox.{
  Event, OutboxError, Outcome, not_confirmed, unroutable, lease_lost, publication_interrupted,
  invalid_claim, invalid_configuration, unavailable, joined, claim, mark_published, mark_failed,
  has_event, is_held, change_held, mark, published,
}
use keyrus.Ledger.Outbox.Leases.{KeepsEvents, IsKeyed, any-find, find-map}
use keyrus.Ledger.Outbox.Steps.{marked-KeepsEvents, published-KeepsEvents}
use keyrus.Ledger.Outbox.Backoff.{retry_delay}

-- `WorkerConfig`; a duration is in nanoseconds
pub record WorkerConfig : Type 0 where
  pub owner : Text
  pub batch_size : ℕ
  pub lease : ℕ
  pub poll_interval : ℕ
  pub backoff_base : ℕ
  pub backoff_max : ℕ
  pub publish_budget : ℕ

-- 2 * time.Second
abbrev pub persistence_budget : ℕ
persistence_budget = 2000000000

-- `config.Lease <= config.PublishBudget+persistenceBudget`: the sum of two positive durations that
-- passes the int64 is negative, and no lease is below it
abbrev is_budget_over : WorkerConfig → Bool
is_budget_over c =
    let sum = c.publish_budget + persistence_budget in ltb sum (2 ^ 63) && leb c.lease sum

-- the tests of `NewWorker` on its configuration
unfoldable pub new_worker : WorkerConfig → Outcome WorkerConfig
new_worker c =
    if leb (length c.owner) 0
      || (ltb c.batch_size 1
          || (leb c.lease 0
              || (leb c.poll_interval 0
                  || (leb c.backoff_base 0
                      || (ltb c.backoff_max c.backoff_base
                          || (leb c.publish_budget 0 || is_budget_over c))))))
    then err invalid_configuration
    else ok c

-- What the broker, the clock of PostgreSQL and the random source do in one round of a worker: the
-- claim and the mark each have an instant and a state of the connection.
pub record Round : Type 0 where
  pub claim_works : Bool
  pub locked : Text → Bool
  pub claimed_at : ℕ
  -- the answer of `Publish`: none is a confirm
  pub broker : Event → Option OutboxError
  pub message : Text
  pub scaled : ℕ → ℕ
  pub mark_works : Bool
  pub marked_at : ℕ
  -- what the other users of the table do while the event is published
  pub meanwhile : List Event → List Event

abbrev pub owner_of : Event → Text
owner_of e = elim e.lease_owner [ none ↦ [] | some o ↦ o ]

abbrev pub with_release :
    OutboxError → Outcome (Unit {0}) × List Event → Outcome (Unit {0}) × List Event
with_release e (ok _, rows) = (err e, rows)
with_release e (err f, rows) = (err (joined e f), rows)

-- `errors.Is(err, ErrPublicationInterrupted)`
abbrev pub is_interruption : OutboxError → Bool
is_interruption publication_interrupted = true
is_interruption (joined a b) = is_interruption a || is_interruption b
is_interruption not_confirmed = false
is_interruption unroutable = false
is_interruption lease_lost = false
is_interruption invalid_claim = false
is_interruption invalid_configuration = false
is_interruption unavailable = false

-- `publishOne`: the event as it was claimed
unfoldable pub publish_one :
    WorkerConfig → Round → Event → List Event → Outcome (Unit {0}) × List Event
unfolding mark_published mark_failed retry_delay
publish_one c r e rows = elim (r.broker e) [
  | none ↦ mark_published r.mark_works r.marked_at e.event.event_id (owner_of e) rows
  | some failure ↦
      if is_interruption failure
      then (err failure, rows)
      else with_release failure (
          mark_failed r.mark_works r.marked_at e.event.event_id (owner_of e)
            (retry_delay r.scaled c.backoff_base c.backoff_max e.attempts) r.message rows)
]

-- what `ProcessOnce` returns: the number of events and the errors
abbrev pub Report : Type 0
Report = ℕ × List OutboxError

abbrev counted : Report × List Event → Report × List Event
counted ((n, errors), rows) = ((suc n, errors), rows)

abbrev with_error : OutboxError → Report × List Event → Report × List Event
with_error e ((n, errors), rows) = ((n, e ∷ errors), rows)

-- the end of a round, where `rest` is the rest of the batch
abbrev after_one :
    Outcome (Unit {0}) × List Event → (List Event → Report × List Event) → Report × List Event
after_one (ok _, rows) rest = counted (rest rows)
after_one (err e, rows) rest =
    if is_interruption e then ((1, e ∷ []), rows) else counted (with_error e (rest rows))

-- `ProcessOnce` over the rounds of a batch: one event for each
unfoldable pub process : WorkerConfig → List Round → List Event → Report × List Event
unfolding claim publish_one
process c [] rows = ((0, []), rows)
process c (r ∷ rs) rows =
    let (claimed, after) = claim r.claim_works r.locked r.claimed_at c.owner 1 c.lease rows in
    elim claimed [
      | err e ↦ ((0, e ∷ []), after)
      | ok found ↦ elim found [
        | [] ↦ ((0, []), after)
        | e ∷ _ ↦ after_one (publish_one c r e (r.meanwhile after)) (process c rs)
      ]
    ]

after_one-bounded :
    (x : Outcome (Unit {0}) × List Event) (rest : List Event → Report × List Event) (n : ℕ)
    → ((rows : List Event) → (rest rows).0.0 ≤ n)
    → (after_one x rest).0.0 ≤ suc n
after_one-bounded (ok _, rows) rest n h = omega (arith, h rows)
after_one-bounded (err e, rows) rest n h = elim (Bool-cases (is_interruption e)) [
  | inl last ↦ rw last (omega arith)
  | inr more ↦ rw more (omega (arith, h rows))
]

-- A batch handles at most one event for each of its rounds, whatever the claims and the broker
-- answer.
pub process-bounded :
    (c : WorkerConfig) (rounds : List Round) (rows : List Event)
    → (process c rounds rows).0.0 ≤ length rounds
unfolding process
process-bounded c [] rows = omega arith
process-bounded c (r ∷ rs) rows =
    go (process-bounded c rs) (claim r.claim_works r.locked r.claimed_at c.owner 1 c.lease rows)
  where
    go :
        ((rows : List Event) → (process c rs rows).0.0 ≤ length rs)
        → (x : Outcome (List Event) × List Event)
        → (elim x.0 as (λ _. Report × List Event) [
          | err e ↦ ((0, e ∷ []), x.1)
          | ok found ↦ elim found [
            | [] ↦ ((0, []), x.1)
            | e ∷ _ ↦ after_one (publish_one c r e (r.meanwhile x.1)) (process c rs)
          ]
        ]).0.0
          ≤ suc (length rs)
    go h (err e, after) = omega arith
    go h (ok [], after) = omega arith
    go h (ok (e ∷ _), after) =
        after_one-bounded (publish_one c r e (r.meanwhile after)) (process c rs) (length rs) h
