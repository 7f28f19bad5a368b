-- ===== src/Ledger/Outbox/Steps.antt =====
-- The outbox table under all its users: any number of workers claim and mark events, and the
-- Ledger appends new ones (services/ledger/internal/outbox/store.go).
use keyrus.Base.{
  ℕ, ◌<◌, ◌≡◌, refl, subst, Bool, true, false, ◌||◌, some, List, [], ◌∷◌, arith, ltb, leb, any,
  find, map, find-eq-some, Bool-cases, inl, inr,
}
use keyrus.Base.Text.{Text, text_eq_sound}
use keyrus.Ledger.Outbox.{
  Event, has_event, is_claimable, claimable, lease_to, is_picked, lease_rows, lease_picked,
  change_held, claim, is_blank, is_held, is_null, published, released, mark, mark_published,
  mark_failed,
}
use keyrus.Ledger.Outbox.Leases.{KeepsEvents, IsKeyed, find-map, IsKeyed-map, claimable-claimable}

-- One statement of any user. Each of them has its own owner and its own instant.
pub data Step : List Event → List Event → Type 0 where
  claims :
      (works : Bool) (locked : Text → Bool) (now limit lease : ℕ) (owner : Text) (rows : List Event)
      → Step rows (claim works locked now owner limit lease rows).1
  publishes :
      (works : Bool) (now : ℕ) (id owner : Text) (rows : List Event)
      → Step rows (mark_published works now id owner rows).1
  fails :
      (works : Bool) (now delay : ℕ) (id owner message : Text) (rows : List Event)
      → Step rows (mark_failed works now id owner delay message rows).1
  appends :
      (e : Event) (rows : List Event)
      → any (has_event e.event.event_id) rows ≡ false
      → Step rows (e ∷ rows)

pub data Reaches : List Event → List Event → Type 0 where
  stays : (rows : List Event) → Reaches rows rows
  moves : {rows next later : List Event} → Step rows next → Reaches next later → Reaches rows later

find-any : (p : Event → Bool) (es : List Event) (e : Event) → find p es ≡ some e → any p es ≡ true
find-any p [] e h = cc
find-any p (x ∷ xs) e h = ground (arith, h, find-any p xs e)

-- what a claim makes of an event
claimed-KeepsEvents :
    (picked : List Event) (owner : Text) (now lease : ℕ)
    → KeepsEvents (lease_picked picked owner now lease)
unfolding lease_to
claimed-KeepsEvents picked owner now lease e = ground arith

-- An event that cannot be claimed is left as it is by every claim.
pub claim_unclaimable :
    (works : Bool) (locked : Text → Bool) (now limit lease : ℕ) (owner id : Text)
    (rows : List Event) (e : Event)
    → IsKeyed rows
    → find (has_event id) rows ≡ some e
    → is_claimable now e ≡ false
    → find (has_event id) (claim works locked now owner limit lease rows).1 ≡ some e
unfolding claim lease_rows
claim_unclaimable works locked now limit lease owner id rows e keyed found busy =
    let picked = claimable locked now limit rows in
    let same : e.event.event_id ≡ id =
      text_eq_sound e.event.event_id id (find-eq-some (has_event id) rows e found) in
    let leased =
      find-map (lease_picked picked owner now lease) id rows
        (claimed-KeepsEvents picked owner now lease) found in
    elim (Bool-cases (is_picked picked e)) [
      | inr free ↦
          let untouched : find (has_event id) (lease_rows picked owner now lease rows) ≡ some e =
            rw free at leased in
          ground (arith, untouched, found)
      | inl hit ↦
          let again : any (has_event id) picked ≡ true =
            subst (λ x. any (has_event x) picked ≡ true) same hit in
          ground (arith, busy, claimable-claimable locked now limit id rows e keyed found again)
    ]

pub marked-KeepsEvents :
    (id owner : Text) (f : Event → Event) → KeepsEvents f → KeepsEvents (change_held id owner f)
marked-KeepsEvents id owner f k e = ground (arith, k e)

pub published-KeepsEvents : (now : ℕ) → KeepsEvents (published now)
published-KeepsEvents now e = refl

pub released-KeepsEvents :
    (now delay : ℕ) (message : Text) → KeepsEvents (released now delay message)
released-KeepsEvents now delay message e = refl

-- a mark leaves the events that are published already
mark_published_already :
    (works : Bool) (id' id owner : Text) (f : Event → Event) (rows : List Event) (e : Event)
    → KeepsEvents f
    → find (has_event id) rows ≡ some e
    → is_null e.published_at ≡ false
    → find (has_event id) (mark works id' owner f rows).1 ≡ some e
unfolding mark
mark_published_already works id' id owner f rows e k found done =
    let changed =
      find-map (change_held id' owner f) id rows (marked-KeepsEvents id' owner f k) found in
    let free : is_held id' owner e ≡ false = ground (arith, done) in
    let kept : find (has_event id) (map (change_held id' owner f) rows) ≡ some e =
      rw free at changed in
    ground (arith, kept, found)

mark-IsKeyed :
    (works : Bool) (id owner : Text) (f : Event → Event) (rows : List Event)
    → KeepsEvents f
    → IsKeyed rows
    → IsKeyed (mark works id owner f rows).1
unfolding mark
mark-IsKeyed works id owner f rows k keyed =
    let changed =
      IsKeyed-map (change_held id owner f) rows (marked-KeepsEvents id owner f k) keyed in
    elim (Bool-cases works) [
      | inr down ↦ rw down keyed
      | inl up ↦ elim (Bool-cases (any (is_held id owner) rows)) [
        | inl held ↦ rw (up, held) changed
        | inr lost ↦ rw (up, lost) keyed
      ]
    ]

claim-IsKeyed :
    (works : Bool) (locked : Text → Bool) (now limit lease : ℕ) (owner : Text) (rows : List Event)
    → IsKeyed rows
    → IsKeyed (claim works locked now owner limit lease rows).1
unfolding claim lease_rows
claim-IsKeyed works locked now limit lease owner rows keyed =
    let picked = claimable locked now limit rows in
    let leased =
      IsKeyed-map (lease_picked picked owner now lease) rows
        (claimed-KeepsEvents picked owner now lease) keyed in
    elim (Bool-cases (is_blank owner || (ltb limit 1 || leb lease 0))) [
      | inl bad ↦ rw (bad, claim) keyed
      | inr good ↦ elim (Bool-cases works) [
        | inr down ↦ rw (good, claim, down) keyed
        | inl up ↦ rw (good, claim, up) leased
      ]
    ]

Step-IsKeyed : {rows next : List Event} → Step rows next → IsKeyed rows → IsKeyed next
unfolding mark_published mark_failed
Step-IsKeyed (claims w l now n lease owner rows) k = claim-IsKeyed w l now n lease owner rows k
Step-IsKeyed (publishes w now id owner rows) k =
    mark-IsKeyed w id owner (published now) rows (published-KeepsEvents now) k
Step-IsKeyed (fails w now delay id owner message rows) k =
    mark-IsKeyed w id owner (released now delay message) rows
      (released-KeepsEvents now delay message) k
Step-IsKeyed (appends e rows fresh) k = (fresh, k)

unclaimable : (now : ℕ) (e : Event) → is_null e.published_at ≡ false → is_claimable now e ≡ false
unfolding is_claimable
unclaimable now e h = rw h

Step-published :
    {rows next : List Event}
    → Step rows next
    → (id : Text) (e : Event) → IsKeyed rows
    → find (has_event id) rows ≡ some e
    → is_null e.published_at ≡ false
    → find (has_event id) next ≡ some e
unfolding mark_published mark_failed
Step-published (claims w l now n lease owner rows) id e k f h =
    claim_unclaimable w l now n lease owner id rows e k f (unclaimable now e h)
Step-published (publishes w now id' owner rows) id e k f h =
    mark_published_already w id' id owner (published now) rows e (published-KeepsEvents now) f h
Step-published (fails w now delay id' owner message rows) id e k f h =
    mark_published_already w id' id owner (released now delay message) rows e
      (released-KeepsEvents now delay message) f h
Step-published (appends new rows fresh) id e k f h = elim (Bool-cases (has_event id new)) [
  | inr other ↦ rw other f
  | inl same ↦ ground (
    arith,
    fresh,
    text_eq_sound new.event.event_id id same,
    find-any (has_event id) rows e f,
    subst (λ x. any (has_event x) rows ≡ false) (text_eq_sound new.event.event_id id same) fresh,
  )
]

-- Whatever the workers of the outbox do from then on, in any number and in any order, an event that
-- is published is never claimed, marked or changed again.
pub published_stays :
    {rows later : List Event}
    → Reaches rows later
    → (id : Text) (e : Event) → IsKeyed rows
    → find (has_event id) rows ≡ some e
    → is_null e.published_at ≡ false
    → find (has_event id) later ≡ some e
published_stays (stays rows) id e k f h = f
published_stays (moves step rest) id e k f h =
    published_stays rest id e (Step-IsKeyed step k) (Step-published step id e k f h) h

-- While a lease runs, no claim of any worker changes the event that it is on.
pub lease_excludes :
    (works : Bool) (locked : Text → Bool) (now limit lease : ℕ) (owner id : Text)
    (rows : List Event) (e : Event) (until : ℕ)
    → IsKeyed rows
    → find (has_event id) rows ≡ some e
    → e.lease_until ≡ some until
    → now < until
    → find (has_event id) (claim works locked now owner limit lease rows).1 ≡ some e
unfolding is_claimable
lease_excludes works locked now limit lease owner id rows e until keyed found leased runs =
    claim_unclaimable works locked now limit lease owner id rows e keyed found
      (ground (arith, leased, runs))
