-- ===== src/Ledger/Tests/Outbox.antt =====
-- Runs of the outbox: two events, one of them published.
use keyrus.Base.{
  ◌≢◌, ◌↔◌, ok, ℕ, ◌≡◌, refl, Bool, true, false, none, some, List, [], ◌∷◌, arith, find,
}
use keyrus.Base.Text.{Text, codes}
use keyrus.Ledger.Tables.{OutboxRow}
use keyrus.Ledger.Outbox.{Outcome, Event, claim, mark_published, has_event}
use keyrus.Ledger.Outbox.Steps.{claims, publishes, stays, moves, published_stays, lease_excludes}
use keyrus.Ledger.Outbox.Worker.Publish.{publish_one-published}
use keyrus.Ledger.Outbox.Worker.{WorkerConfig, Round, publish_one}

abbrev row_of : Text → ℕ → OutboxRow
row_of id position = record {
  event_id = id;
  aggregate_id = id;
  merchant_id = codes "m";
  merchant_position = position;
  event_type = codes "ledger.entry.confirmed.v1";
  payload = [];
  occurred_at = 10;
}

abbrev waiting : Event
waiting = record {
  event = row_of (codes "a") 1;
  created_at = 10;
  available_at = 10;
  attempts = 0;
  lease_owner = none;
  lease_until = none;
  published_at = none;
  last_error = none;
}

abbrev leased : Event
leased = record waiting { lease_owner = some (codes "w1"); lease_until = some 120; attempts = 1 }

abbrev done : Event
done = record waiting { event = row_of (codes "b") 2; attempts = 1; published_at = some 50 }

abbrev rows : List Event
rows = waiting ∷ done ∷ []

abbrev unlocked : Text → Bool
unlocked id = false

abbrev after_claim : List Event
after_claim = (claim true unlocked 100 (codes "w1") 1 20 rows).1

published_stays_example :
    find (has_event (codes "b")) (mark_published true 110 (codes "a") (codes "w1") after_claim).1
    ≡ some done
published_stays_example =
    published_stays
      (moves (claims true unlocked 100 1 20 (codes "w1") rows) (
        moves (publishes true 110 (codes "a") (codes "w1") after_claim)
          (stays (mark_published true 110 (codes "a") (codes "w1") after_claim).1)))
      (codes "b") done (refl, (refl, tt)) refl refl

lease_excludes_example :
    find (has_event (codes "a")) (claim true unlocked 110 (codes "w2") 1 20 (leased ∷ done ∷ [])).1
    ≡ some leased
lease_excludes_example =
    lease_excludes true unlocked 110 1 20 (codes "w2") (codes "a") (leased ∷ done ∷ []) leased 120
      (refl, (refl, tt)) refl refl (omega arith)

abbrev config : WorkerConfig
config = record {
  owner = codes "w1";
  batch_size = 2;
  lease = 20;
  poll_interval = 5;
  backoff_base = 100;
  backoff_max = 1000;
  publish_budget = 3;
}

abbrev confirming : Round
confirming = record {
  claim_works = true;
  locked = unlocked;
  claimed_at = 100;
  broker = λ e. none;
  message = [];
  scaled = λ d. d;
  mark_works = true;
  marked_at = 110;
  meanwhile = λ r. r;
}

abbrev handled : Outcome (Unit {0}) × List Event
handled = publish_one config confirming leased (leased ∷ done ∷ [])

publish_one_example :
    ((handled.0 ≡ ok tt) ↔ (
      (confirming.broker leased ≡ none)
      × (true ≡ true)
      × (leased.lease_owner ≡ some (codes "w1"))
      × (leased.published_at ≡ none)))
    × (handled.0 ≡ ok tt
        → (x : Event) × (find (has_event (codes "a")) handled.1 ≡ some x)
          × (x.published_at ≡ some 110)
          × (x.lease_owner ≡ none)
          × (x.lease_until ≡ none)
          × (x.event ≡ leased.event))
    × (handled.0 ≢ ok tt
        → (x : Event) × (find (has_event (codes "a")) handled.1 ≡ some x)
          × (x.published_at ≡ leased.published_at))
publish_one_example =
    publish_one-published config confirming leased leased (codes "w1") (leased ∷ done ∷ [])
      (refl, (refl, tt)) refl refl
