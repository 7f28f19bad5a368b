-- ===== src/Ledger/Outbox/Worker/Publish.antt =====
-- When an event becomes published.
use keyrus.Base.{
  ℕ, ◌≡◌, ◌≢◌, ◌↔◌, refl, sym, ◌∙◌, ap, Bool, true, false, ◌&&◌, none, some, List, [], ◌∷◌, arith,
  ok, err, Bool-cases, Option-cases, inl, inr, any, find, map, find-eq-some,
}
use keyrus.Base.Text.{Text, text_eq_sound, text_eq_refl}
use keyrus.Ledger.Outbox.{
  Event, OutboxError, Outcome, mark_published, mark_failed, has_event, is_held, change_held, mark,
  published, released,
}
use keyrus.Ledger.Outbox.Leases.{KeepsEvents, IsKeyed, any-find, find-map}
use keyrus.Ledger.Outbox.Steps.{marked-KeepsEvents, published-KeepsEvents, released-KeepsEvents}
use keyrus.Ledger.Outbox.Backoff.{retry_delay}
use keyrus.Ledger.Outbox.Worker.{
  WorkerConfig, Round, owner_of, with_release, is_interruption, publish_one,
}

any-both :
    (id owner : Text) (rows : List Event)
    → any (is_held id owner) rows ≡ true
    → any (λ x. is_held id owner x && has_event id x) rows ≡ true
any-both id owner [] h = cc
any-both id owner (e ∷ es) h = ground (arith, h, any-both id owner es)

mark-eq-ok :
    (works : Bool) (id owner : Text) (f : Event → Event) (rows after : List Event) (e : Event)
    → KeepsEvents f
    → IsKeyed rows
    → find (has_event id) rows ≡ some e
    → mark works id owner f rows ≡ (ok tt, after)
    → (is_held id owner e ≡ true) × (find (has_event id) after ≡ some (f e))
unfolding mark
mark-eq-ok works id owner f rows after e k keyed found h = elim (Bool-cases works) [
  | inr down ↦ ground (arith, down, h)
  | inl up ↦ elim (Bool-cases (any (is_held id owner) rows)) [
    | inr lost ↦ ground (arith, up, lost, h)
    | inl held ↦
        let mine =
          any-find (λ x. is_held id owner x) id rows e keyed (any-both id owner rows held) found in
        let moved : map (change_held id owner f) rows ≡ after = ground (arith, up, held, h) in
        (
          mine,
          ap (find (has_event id)) (sym moved)
              ∙ find-map (change_held id owner f) id rows (marked-KeepsEvents id owner f k) found
              ∙ rw mine refl,
        )
  ]
]

any-of-find :
    (p q : Event → Bool) (rows : List Event) (e : Event)
    → find q rows ≡ some e
    → p e ≡ true
    → any p rows ≡ true
any-of-find p q [] e found h = cc
any-of-find p q (x ∷ xs) e found h = elim (Bool-cases (q x)) [
  | inl here ↦
      let same : x ≡ e = ground (arith, here, found) in
      let holds = ap p same ∙ h in ground (arith, holds)
  | inr later ↦ ground (arith, any-of-find p q xs e (ground (arith, later, found)) h)
]

is_held-eq-true :
    (id owner : Text) (e : Event)
    → is_held id owner e ≡ true
    → (e.lease_owner ≡ some owner) × (e.published_at ≡ none)
is_held-eq-true id owner e h = elim (Option-cases e.lease_owner) [
  | inl free ↦ absurd (ground (arith, h, free))
  | inr (o, leased) ↦
      let same = text_eq_sound o owner (ground (arith, h, leased)) in
      (leased ∙ ap some same, ground (arith, h))
]

is_held_of :
    (id owner : Text) (e : Event)
    → has_event id e ≡ true
    → e.lease_owner ≡ some owner
    → e.published_at ≡ none
    → is_held id owner e ≡ true
is_held_of id owner e mine leased waiting = rw (mine, leased, waiting, text_eq_refl owner) refl

-- a mark that reports a failure changes no row
mark_refused :
    (works : Bool) (id owner : Text) (f : Event → Event) (rows : List Event)
    → (mark works id owner f rows).0 ≢ ok tt
    → (mark works id owner f rows).1 ≡ rows
unfolding mark
mark_refused works id owner f rows h = elim (Bool-cases works) [
  | inr down ↦ rw (mark, down) refl
  | inl up ↦ elim (Bool-cases (any (is_held id owner) rows)) [
    | inr lost ↦ rw (mark, up, lost) refl
    | inl held ↦ absurd (h (rw (mark, up, held) refl))
  ]
]

mark-works :
    (works : Bool) (id owner : Text) (f : Event → Event) (rows : List Event)
    → (mark works id owner f rows).0 ≡ ok tt
    → works ≡ true
unfolding mark
mark-works true id owner f rows h = refl
mark-works false id owner f rows h = cc

mark_succeeds :
    (id owner : Text) (f : Event → Event) (rows : List Event) (e : Event)
    → find (has_event id) rows ≡ some e
    → is_held id owner e ≡ true
    → (mark true id owner f rows).0 ≡ ok tt
unfolding mark
mark_succeeds id owner f rows e found held =
    rw (mark, any-of-find (is_held id owner) (has_event id) rows e found held) refl

-- the row of an event as it waits: whoever holds it, it is as published as `e` is
abbrev Waits : Text → Event → List Event → Type 0
Waits id e rows =
    (x : Event) × (find (has_event id) rows ≡ some x) × (x.published_at ≡ e.published_at)

released-Waits :
    (works : Bool) (id owner : Text) (now delay : ℕ) (message : Text) (rows : List Event)
    (e : Event)
    → find (has_event id) rows ≡ some e
    → Waits id e (mark works id owner (released now delay message) rows).1
unfolding mark
released-Waits works id owner now delay message rows e found =
    let f = released now delay message in
    elim (Bool-cases works) [
      | inr down ↦ rw (mark, down) (e, found, refl)
      | inl up ↦ elim (Bool-cases (any (is_held id owner) rows)) [
        | inr lost ↦ rw (mark, up, lost) (e, found, refl)
        | inl held ↦
            rw (mark, up, held)
              (
                change_held id owner f e,
                find-map (change_held id owner f) id rows
                    (marked-KeepsEvents id owner f (released-KeepsEvents now delay message)) found,
                ground arith,
              )
      ]
    ]

with_release-fails :
    (e : OutboxError) (x : Outcome (Unit {0}) × List Event) → (with_release e x).0 ≢ ok tt
with_release-fails e (ok _, rows) h = cc
with_release-fails e (err f, rows) h = cc

with_release-rows :
    (e : OutboxError) (x : Outcome (Unit {0}) × List Event) → (with_release e x).1 ≡ x.1
with_release-rows e (ok _, rows) = refl
with_release-rows e (err f, rows) = refl

-- without a confirm the event is reported as failed and stays as published as it was
refused-Waits :
    (c : WorkerConfig) (r : Round) (claimed current : Event) (rows : List Event) (e : OutboxError)
    → r.broker claimed ≡ some e
    → find (has_event claimed.event.event_id) rows ≡ some current
    → ((publish_one c r claimed rows).0 ≢ ok tt)
      × Waits claimed.event.event_id current (publish_one c r claimed rows).1
unfolding publish_one mark_failed
refused-Waits c r claimed current rows e refused found =
    let id = claimed.event.event_id in
    elim (Bool-cases (is_interruption e)) [
      | inl stop ↦ rw (publish_one, refused, stop) (λ h. cc, (current, found, refl))
      | inr failed ↦
          let delay = retry_delay r.scaled c.backoff_base c.backoff_max claimed.attempts in
          let marked =
            mark r.mark_works id (owner_of claimed) (released r.marked_at delay r.message) rows in
          let (x, there, same) =
            released-Waits r.mark_works id (owner_of claimed) r.marked_at delay r.message rows
              current found in
          rw (publish_one, refused, failed)
            (
              with_release-fails e marked,
              (x, ap (find (has_event id)) (with_release-rows e marked) ∙ there, same),
            )
    ]

-- Where identifiers are unique, the table has the event and it was claimed by an owner: publishOne
-- reports success exactly when the broker confirms the event, PostgreSQL accepts the mark, and by then
-- the lease of the event is still that owner's and the event is not published. Then the event is
-- published at the instant of the mark, with its lease gone and its data as before. In every other case
-- the event stays as published as it was.
pub publish_one-published :
    (c : WorkerConfig) (r : Round) (claimed current : Event) (owner : Text) (rows : List Event)
    → IsKeyed rows
    → find (has_event claimed.event.event_id) rows ≡ some current
    → claimed.lease_owner ≡ some owner
    → (((publish_one c r claimed rows).0 ≡ ok tt) ↔ (
        (r.broker claimed ≡ none)
        × (r.mark_works ≡ true)
        × (current.lease_owner ≡ some owner)
        × (current.published_at ≡ none)))
      × ((publish_one c r claimed rows).0 ≡ ok tt
          → (x : Event) × (find (has_event claimed.event.event_id) (publish_one c r claimed rows).1
              ≡ some x)
            × (x.published_at ≡ some r.marked_at)
            × (x.lease_owner ≡ none)
            × (x.lease_until ≡ none)
            × (x.event ≡ current.event))
      × ((publish_one c r claimed rows).0 ≢ ok tt
          → (x : Event) × (find (has_event claimed.event.event_id) (publish_one c r claimed rows).1
              ≡ some x)
            × (x.published_at ≡ current.published_at))
unfolding publish_one mark_published mark
publish_one-published c r claimed current owner rows keyed found claimed_by =
    elim (Option-cases (r.broker claimed)) [
      | inr (e, refused) ↦
          let (fails, waits) = refused-Waits c r claimed current rows e refused found in
          (
            (
              λ h. absurd (fails h),
              λ (confirmed, works, leased, waiting). absurd (cc (sym confirmed ∙ refused)),
            ),
            λ h. absurd (fails h),
            λ h. waits,
          )
      | inl confirmed ↦
          let id = claimed.event.event_id in
          let f = published r.marked_at in
          let marked = mark r.mark_works id owner f rows in
          let mine : owner_of claimed ≡ owner = rw claimed_by refl in
          let is_mark : publish_one c r claimed rows ≡ marked =
            rw (publish_one, confirmed) (ap (λ o. mark r.mark_works id o f rows) mine) in
          let done = λ (h : marked.0 ≡ ok tt).
            mark-eq-ok r.mark_works id owner f rows marked.1 current
              (published-KeepsEvents r.marked_at) keyed found
              (ap (λ (o : Outcome (Unit {0})). (o, marked.1)) h) in
          rw is_mark (
            (
              λ h.
                  let (leased, waiting) = is_held-eq-true id owner current (done h).0 in
                  (confirmed, mark-works r.mark_works id owner f rows h, leased, waiting),
              λ (answered, up, leased, waiting). rw up (
                  mark_succeeds id owner f rows current found (
                    is_held_of id owner current (find-eq-some (has_event id) rows current found)
                      leased waiting)),
            ),
            λ h. (f current, (done h).1, refl, refl, refl, refl),
            λ h. (
              current,
              ap (find (has_event id)) (mark_refused r.mark_works id owner f rows h) ∙ found,
              refl,
            ),
          )
    ]
