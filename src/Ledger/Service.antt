-- ===== src/Ledger/Service.antt =====
-- services/ledger/internal/application/service.go: the use cases that write.
pub mod Steps
pub mod Keeps
pub mod Settled
pub mod Replay
pub mod Again
pub mod Invariant
use keyrus.Base.{
  ℕ, Bool, true, false, not, ◌&&◌, ◌||◌, Option, none, some, List, [], ◌∷◌, if◌then◌else◌, Result,
  ok, err, replace_error, ◌≡◌, ◌>>=◌ as ◌>>=ᶠ◌,
}
use keyrus.Base.Int.{ℤ}
use keyrus.Base.Text.{Text, codes, text_eq}
use keyrus.Base.Date.{Date, format}
use keyrus.Ledger.Errors.{
  Error, Fallible, invalid_merchant, invalid_argument, idempotency_conflict, response_missing,
  reversal_not_allowed, database,
}
use keyrus.Ledger.Money.{Money, new_money, currency_brl}
use keyrus.Ledger.Identifier.{EntryId, parse_id}
use keyrus.Ledger.Traceparent.{validate_traceparent}
use keyrus.Ledger.Entry.{Entry, new_entry, new_reversal, parse_entry_type, is_empty}
use keyrus.Ledger.Calendar.{Location, new_calendar, resolve, parse_business_date}
use keyrus.Ledger.Tables.{Completion, IdempotencyRow, Tables, Tx, pure, lift, ◌>>=◌, ◌>>◌}
use keyrus.Ledger.Store.{
  Attempt, claim_idempotency, complete_idempotency, next_position, insert_entry,
}
use keyrus.Ledger.Store.Read.{entry_for_update, OutboxEvent, insert_outbox_row}
use keyrus.Ledger.Wire.{
  operation_create, operation_reverse, entry_event_type, CreateEntryInput, ReverseEntryInput,
  EntryResult, EventWire, RequestBody, create_body, reverse_body, Platform, Draft, Draws,
  text_or_empty, state_confirmed, result_from_entry, event_wire,
}

-- `parseMerchant`
unfoldable pub parse_merchant : Text → Fallible EntryId
parse_merchant value = replace_error (parse_id value) invalid_merchant

abbrev some_date : Fallible Date → Fallible (Option Date)
some_date (ok d) = ok (some d)
some_date (err e) = err e

-- `optionalDate`
unfoldable pub optional_date : Option Text → Fallible (Option Date)
optional_date none = ok none
optional_date (some s) = some_date (parse_business_date s)

module _ (p : Platform) where
  -- `insertOutbox`
  unfoldable pub insert_outbox : Draws → Entry → Text → Tx (Unit {0})
  unfolding insert_outbox_row event_wire
  insert_outbox d e traceparent = do
    event_id ← lift d.event_id
    insert_outbox_row (record {
      event_id = event_id;
      entry_id = e.id;
      merchant_id = e.merchant_id;
      position = e.position;
      event_type = entry_event_type;
      occurred_at = d.confirmed_at;
      payload = p.marshal_event (event_wire event_id e d.confirmed_at traceparent);
    })

  -- the end of both callbacks: the entry, its event and the result
  unfoldable pub record_entry : Draws → Entry → Text → Tx EntryResult
  unfolding insert_entry insert_outbox result_from_entry
  record_entry d e traceparent = do
    insert_entry e
    insert_outbox d e traceparent
    pure (result_from_entry e)

  -- The end of both callbacks from the position on: `make` is `NewEntry` or `NewReversal`.
  unfoldable pub append_entry :
      Draws → EntryId → (ℕ → EntryId → Fallible Entry) → Text → Tx EntryResult
  unfolding next_position record_entry
  append_entry d merchant make traceparent = do
    position ← next_position merchant d.confirmed_at
    id ← lift d.entry_id
    entry ← lift (make position id)
    record_entry d entry traceparent

  -- The callback of `CreateEntry` up to the business date: it touches no table.
  unfoldable pub draft : Draws → CreateEntryInput → Fallible Draft
  unfolding parse_entry_type new_money optional_date new_calendar resolve
  draft d input = parse_entry_type input.entry_type >>=ᶠ λ entry_type.
      new_money input.amount_minor input.currency >>=ᶠ λ money.
      optional_date input.business_date >>=ᶠ λ requested.
      new_calendar p.load_location input.time_zone >>=ᶠ λ location.
      resolve location d.confirmed_at requested >>=ᶠ λ date.
      ok (record { entry_type = entry_type; money = money; business_date = date })

  abbrev pub entry_of : Draws → EntryId → CreateEntryInput → Draft → ℕ → EntryId → Entry
  entry_of d merchant input f position id = record {
    id = id;
    merchant_id = merchant;
    position = position;
    entry_type = f.entry_type;
    money = f.money;
    business_date = f.business_date;
    description = input.description;
    confirmed_at = d.confirmed_at;
    original_entry_id = none;
  }

  -- the callback of `CreateEntry`
  unfoldable pub create : Draws → EntryId → CreateEntryInput → Tx EntryResult
  unfolding draft append_entry new_entry
  create d merchant input = do
    f ← lift (draft d input)
    append_entry d merchant (λ position id. new_entry (entry_of d merchant input f position id))
        input.traceparent

  abbrev pub refuse_reversal : Entry → Fallible (Unit {0})
  refuse_reversal original = elim original.original_entry_id [
    | none ↦ ok tt
    | some _ ↦ err reversal_not_allowed
  ]

  -- the date of a reversal: `Resolve` of no requested date
  unfoldable pub reversal_date : Draws → ReverseEntryInput → Fallible Date
  unfolding new_calendar resolve
  reversal_date d input = new_calendar p.load_location input.time_zone >>=ᶠ λ location.
      resolve location d.confirmed_at none

  -- the callback of `ReverseEntry`
  unfoldable pub reverse : Draws → EntryId → EntryId → ReverseEntryInput → Tx EntryResult
  unfolding reversal_date entry_for_update append_entry new_reversal
  reverse d merchant original_id input = do
    date ← lift (reversal_date d input)
    original ← entry_for_update merchant original_id
    lift (refuse_reversal original)
    append_entry d merchant (λ position id. new_reversal id position original date d.confirmed_at)
        input.traceparent

  abbrev pub or_missing : Option EntryResult → Fallible EntryResult
  or_missing none = err response_missing
  or_missing (some result) = ok result

  abbrev pub read_response : Text → Fallible EntryResult
  read_response payload =
      if is_empty payload then err response_missing else or_missing (p.unmarshal_result payload)

  -- The response of a request whose key was used before.
  unfoldable pub replay : Text → IdempotencyRow → Fallible EntryResult
  replay request_hash r =
      if not (text_eq r.request_hash request_hash)
      then err idempotency_conflict
      else elim r.completion [
        | none ↦ err response_missing
        | some c ↦ read_response (p.stored c.response_payload)
      ]

  -- The rest of the transaction of a request whose key was claimed.
  unfoldable pub perform : Draws → EntryId → Tx EntryResult → Tx EntryResult
  unfolding complete_idempotency
  perform d attempt action = do
    result ← action
    entry ← lift (parse_id result.id)
    complete_idempotency attempt entry (p.marshal_result result) d.completed_at
    pure result

  -- the callback that `executeIdempotent` gives to the unit of work
  unfoldable pub attempt_once : Draws → Attempt → Tx EntryResult → Tx EntryResult
  unfolding claim_idempotency replay perform
  attempt_once d a action = do
    found ← claim_idempotency a
    elim found [ some r ↦ lift (replay a.request_hash r) | none ↦ perform d a.attempt_id action ]

  -- `Repository.Execute`: what the callback did is kept if it returns and the commit is accepted.
  unfoldable pub execute : {A : Type 0} → Draws → Tx A → Tables → Fallible A × Tables
  execute d callback t = elim (callback t) [
    | err e ↦ (err e, t)
    | ok (a, t') ↦ if d.commits then (ok a, t') else (err database, t)
  ]

  -- the attempt of a request under an identifier of its own
  abbrev pub attempt_of : EntryId → Text → Text → RequestBody → EntryId → Attempt
  attempt_of merchant operation key body attempt = record {
    attempt_id = attempt;
    merchant_id = merchant;
    operation = operation;
    key_hash = p.sha256 key;
    request_hash = p.sha256 (p.marshal_request body);
  }

  -- `executeIdempotent`
  unfoldable pub execute_idempotent :
      Draws
      → EntryId
      → Text
      → Text
      → RequestBody
      → Tx EntryResult
      → Tables
      → Fallible EntryResult × Tables
  unfolding execute attempt_once
  execute_idempotent d merchant operation key body action t = elim d.attempt_id [
    | err e ↦ (err e, t)
    | ok attempt ↦
        execute d (attempt_once d (attempt_of merchant operation key body attempt) action) t
  ]

  -- the hashed part of a request
  abbrev pub body_of_create : CreateEntryInput → RequestBody
  body_of_create i =
      create_body i.entry_type i.amount_minor i.currency i.business_date i.description

  -- the tests of a key and a trace parent
  abbrev pub check_key : Text → Text → Fallible (Unit {0})
  check_key key traceparent =
      if is_empty key then err invalid_argument else validate_traceparent traceparent

  -- `CreateEntry`
  unfoldable pub create_entry : Draws → CreateEntryInput → Tables → Fallible EntryResult × Tables
  unfolding parse_merchant validate_traceparent execute_idempotent create
  create_entry d input t = elim (parse_merchant input.merchant_id) [
    | err e ↦ (err e, t)
    | ok merchant ↦ elim (check_key input.idempotency_key input.traceparent) [
      | err e ↦ (err e, t)
      | ok _ ↦
          execute_idempotent d merchant operation_create input.idempotency_key
            (body_of_create input) (create d merchant input) t
    ]
  ]

  -- `ReverseEntry`
  unfoldable pub reverse_entry : Draws → ReverseEntryInput → Tables → Fallible EntryResult × Tables
  unfolding parse_merchant validate_traceparent execute_idempotent reverse
  reverse_entry d input t = elim (parse_merchant input.merchant_id) [
    | err e ↦ (err e, t)
    | ok merchant ↦ elim (parse_id input.original_entry_id) [
      | err e ↦ (err e, t)
      | ok original ↦ elim (check_key input.idempotency_key input.traceparent) [
        | err e ↦ (err e, t)
        | ok _ ↦
            execute_idempotent d merchant operation_reverse input.idempotency_key
              (reverse_body input.original_entry_id) (reverse d merchant original input) t
      ]
    ]
  ]
