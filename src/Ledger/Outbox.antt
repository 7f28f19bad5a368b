-- ===== src/Ledger/Outbox.antt =====
-- services/ledger/internal/outbox/store.go: the leases on the events that wait for publication.
-- A statement is one step at one reading of its clock, and it reports `unavailable` and changes
-- nothing where PostgreSQL fails it.
pub mod Backoff
pub mod Leases
pub mod Steps
pub mod Worker
use keyrus.Base.{
  ℕ, ◌+◌, Bool, true, false, not, ◌&&◌, ◌||◌, Option, none, some, List, [], ◌∷◌, ltb, leb, ◌==◌,
  if◌then◌else◌, any, all, map, take, Result, ok, err,
}
use keyrus.Base.Text.{Text, text_eq}
use keyrus.Ledger.Tables.{OutboxRow}

-- The errors of model.go, and the ones that the functions make without a name.
pub data OutboxError : Type 0 where
  not_confirmed unroutable lease_lost publication_interrupted : OutboxError
  invalid_claim invalid_configuration unavailable : OutboxError
  -- `errors.Join`
  joined : OutboxError → OutboxError → OutboxError

-- a row of ledger.outbox_event: the event, and the columns of its publication
pub record Event : Type 0 where
  pub event : OutboxRow
  pub created_at : ℕ
  pub available_at : ℕ
  pub attempts : ℕ
  pub lease_owner : Option Text
  pub lease_until : Option ℕ
  pub published_at : Option ℕ
  pub last_error : Option Text

abbrev pub Outcome : Type 0 → Type 0
Outcome A = Result OutboxError A

abbrev pub has_event : Text → Event → Bool
has_event id e = text_eq e.event.event_id id

abbrev pub is_null : {A : Type 0} → Option A → Bool
is_null none = true
is_null (some _) = false

-- `x IS NULL OR x <= now`
abbrev pub has_passed : ℕ → Option ℕ → Bool
has_passed now none = true
has_passed now (some t) = leb t now

abbrev pub is_owned_by : Text → Option Text → Bool
is_owned_by owner none = false
is_owned_by owner (some o) = text_eq o owner

-- the WHERE of the claim
unfoldable pub is_claimable : ℕ → Event → Bool
is_claimable now e =
    is_null e.published_at && (leb e.available_at now && has_passed now e.lease_until)

abbrev text_ltb : Text → Text → Bool
text_ltb s [] = false
text_ltb [] (d ∷ t) = true
text_ltb (c ∷ s) (d ∷ t) = let rest = text_ltb s t in ltb c d || ((c == d) && rest)

-- `ORDER BY available_at, created_at, event_id`
abbrev comes_first : Event → Event → Bool
comes_first a b =
    ltb a.available_at b.available_at
    || ((a.available_at == b.available_at)
        && (ltb a.created_at b.created_at
            || ((a.created_at == b.created_at) && text_ltb a.event.event_id b.event.event_id)))

unfoldable pub put : Event → List Event → List Event
put e [] = e ∷ []
put e (x ∷ xs) = let rest = put e xs in if comes_first e x then e ∷ x ∷ xs else x ∷ rest

unfoldable pub sorted : List Event → List Event
unfolding put
sorted [] = []
sorted (e ∷ es) = put e (sorted es)

unfoldable pub selected : (Event → Bool) → List Event → List Event
selected p [] = []
selected p (e ∷ es) = let rest = selected p es in if p e then e ∷ rest else rest

-- The common table expression: the first `limit` claimable events that no other transaction has
-- locked.
unfoldable pub claimable : (Text → Bool) → ℕ → ℕ → List Event → List Event
unfolding is_claimable sorted selected
claimable locked now limit rows =
    take limit (sorted (selected (λ e. is_claimable now e && not (locked e.event.event_id)) rows))

unfoldable pub lease_to : Text → ℕ → ℕ → Event → Event
lease_to owner now lease e = record e {
  lease_owner = some owner;
  lease_until = some (now + lease);
  attempts = e.attempts + 1;
  last_error = none;
}

abbrev pub is_picked : List Event → Event → Bool
is_picked picked e = any (has_event e.event.event_id) picked

abbrev pub lease_picked : List Event → Text → ℕ → ℕ → Event → Event
lease_picked picked owner now lease e = if is_picked picked e then lease_to owner now lease e else e

-- `UPDATE ... FROM claimable`
unfoldable pub lease_rows : List Event → Text → ℕ → ℕ → List Event → List Event
unfolding lease_to
lease_rows picked owner now lease = map (lease_picked picked owner now lease)

abbrev is_space : ℕ → Bool
is_space c = (c == 32) || (leb 9 c && leb c 13)

-- `strings.TrimSpace(owner) == ""`, for an owner in ASCII
abbrev pub is_blank : Text → Bool
is_blank = all is_space

-- `Claim`: the claimed events as they are after it, and the table. A duration is not negative.
unfoldable pub claim :
    Bool → (Text → Bool) → ℕ → Text → ℕ → ℕ → List Event → Outcome (List Event) × List Event
unfolding claimable lease_rows
claim works locked now owner limit lease rows =
    if is_blank owner || (ltb limit 1 || leb lease 0)
    then (err invalid_claim, rows)
    else if not works
    then (err unavailable, rows)
    else let picked = claimable locked now limit rows in
      (ok (map (lease_to owner now lease) picked), lease_rows picked owner now lease rows)

-- the WHERE of both marks
abbrev pub is_held : Text → Text → Event → Bool
is_held id owner e = has_event id e && (is_owned_by owner e.lease_owner && is_null e.published_at)

abbrev pub published : ℕ → Event → Event
published now e = record e {
  published_at = some now;
  lease_owner = none;
  lease_until = none;
  last_error = none;
}

abbrev pub released : ℕ → ℕ → Text → Event → Event
released now delay message e = record e {
  available_at = now + delay;
  lease_owner = none;
  lease_until = none;
  last_error = some (take 500 message);
}

abbrev pub change_held : Text → Text → (Event → Event) → Event → Event
change_held id owner change e = if is_held id owner e then change e else e

-- an update of the rows that an owner holds under an identifier: of one row or of none
unfoldable pub mark :
    Bool → Text → Text → (Event → Event) → List Event → Outcome (Unit {0}) × List Event
mark works id owner change rows =
    if not works
    then (err unavailable, rows)
    else if any (is_held id owner) rows
    then (ok tt, map (change_held id owner change) rows)
    else (err lease_lost, rows)

-- `MarkPublished`
unfoldable pub mark_published :
    Bool → ℕ → Text → Text → List Event → Outcome (Unit {0}) × List Event
unfolding mark
mark_published works now id owner = mark works id owner (published now)

-- `MarkFailed`
unfoldable pub mark_failed :
    Bool → ℕ → Text → Text → ℕ → Text → List Event → Outcome (Unit {0}) × List Event
unfolding mark
mark_failed works now id owner delay message = mark works id owner (released now delay message)
