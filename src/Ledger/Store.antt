-- ===== src/Ledger/Store.antt =====
-- services/ledger/internal/adapters/outbound/postgres/repository.go: the statements of a
-- transaction, with the constraints of services/ledger/migrations that decide them. An identifier
-- in a uuid column is in lower case.
pub mod Read
pub mod Restore
use keyrus.Base.{
  ℕ, suc, ◌+◌, Bool, true, false, not, ◌&&◌, ◌||◌, Option, none, some, List, [], ◌∷◌, ltb, leb,
  ◌==◌, if◌then◌else◌, length, any, find, ok, err,
}
use keyrus.Base.Int.{ℤ, pos, leb_ℤ, is_int64, max_int64}
use keyrus.Base.Text.{Text, codes, text_eq, lower}
use keyrus.Base.Date.{Date, format}
use keyrus.Ledger.Errors.{
  Fallible, entry_not_found, already_reversed, not_completed, database, Error,
}
use keyrus.Ledger.Money.{Money, new_money, currency_brl}
use keyrus.Ledger.Identifier.{EntryId, parse_id}
use keyrus.Ledger.Entry.{Entry, new_entry, parse_entry_type, is_entry_type, maximum_description}
use keyrus.Ledger.Calendar.{parse_business_date}
use keyrus.Ledger.Tables.{
  PositionRow, EntryRow, Completion, IdempotencyRow, OutboxRow, Tables, Tx, pure, lift, gets, ◌>>=◌,
  ◌>>◌,
}

-- `IdempotencyAttempt`
pub record Attempt : Type 0 where
  pub attempt_id : EntryId
  pub merchant_id : EntryId
  pub operation : Text
  pub key_hash : Text
  pub request_hash : Text

-- the columns of `UNIQUE (merchant_id, operation, key_hash)`
abbrev pub same_scope : Attempt → IdempotencyRow → Bool
same_scope a r =
    text_eq r.merchant_id (lower a.merchant_id)
    && (text_eq r.operation a.operation && text_eq r.key_hash a.key_hash)

abbrev pub has_attempt : Text → List IdempotencyRow → Bool
has_attempt id = any (λ r. text_eq r.attempt_id id)

abbrev pub attempt_row : Attempt → IdempotencyRow
attempt_row a = record {
  attempt_id = lower a.attempt_id;
  merchant_id = lower a.merchant_id;
  operation = a.operation;
  key_hash = a.key_hash;
  request_hash = a.request_hash;
  completion = none;
}

-- `ClaimIdempotency`: the row that has the scope already, or none when the row is inserted. A row
-- of another scope with the same primary key is an error.
unfoldable pub claim_idempotency : Attempt → Tx (Option IdempotencyRow)
claim_idempotency a t = elim (find (same_scope a) t.attempts) [
  | some r ↦ ok (some r, t)
  | none ↦
      if has_attempt (lower a.attempt_id) t.attempts
      then err database
      else ok (none, record t { attempts = attempt_row a ∷ t.attempts })
]

-- the rows that `CompleteIdempotency` updates
abbrev pub is_open_attempt : Text → IdempotencyRow → Bool
is_open_attempt id r = text_eq r.attempt_id id && elim r.completion [ none ↦ true | some _ ↦ false ]

abbrev pub complete_rows : Text → Completion → List IdempotencyRow → List IdempotencyRow
complete_rows id c [] = []
complete_rows id c (r ∷ rs) =
    (if is_open_attempt id r then record r { completion = some c } else r) ∷ complete_rows id c rs

-- `FOREIGN KEY (merchant_id, entry_id)` of every row that is updated
abbrev pub completes_own_entries : Text → Text → List IdempotencyRow → List EntryRow → Bool
completes_own_entries id entry [] es = true
completes_own_entries id entry (r ∷ rs) es =
    (not (is_open_attempt id r)
      || any (λ (e : EntryRow). text_eq e.merchant_id r.merchant_id && text_eq e.id entry) es)
    && completes_own_entries id entry rs es

-- `CompleteIdempotency`; attempt_id is the primary key, so it updates one row or none
unfoldable pub complete_idempotency : EntryId → EntryId → Text → ℕ → Tx (Unit {0})
complete_idempotency attempt entry response at t =
    let c : Completion = record {
      entry_id = lower entry;
      response_payload = response;
      completed_at = at;
    } in
    if not (any (is_open_attempt (lower attempt)) t.attempts)
    then err not_completed
    else if not (completes_own_entries (lower attempt) (lower entry) t.attempts t.entries)
    then err database
    else ok (tt, record t { attempts = complete_rows (lower attempt) c t.attempts })

-- the last position of a merchant, 0 where it has no row
unfoldable pub last_position : Text → List PositionRow → ℕ
last_position m [] = 0
last_position m (r ∷ rs) = if text_eq r.merchant_id m then r.last_position else last_position m rs

abbrev pub upsert_position : Text → ℕ → ℕ → List PositionRow → List PositionRow
upsert_position m p now [] = record { merchant_id = m; last_position = p; updated_at = now } ∷ []
upsert_position m p now (r ∷ rs) =
    if text_eq r.merchant_id m
    then record r { last_position = p; updated_at = now } ∷ rs
    else r ∷ upsert_position m p now rs

-- `NextPosition`: 1 for a merchant without a row, and otherwise the last position plus one, a
-- bigint
unfoldable pub next_position : EntryId → ℕ → Tx ℕ
unfolding last_position
next_position merchant now t =
    let m = lower merchant in
    let p = last_position m t.positions + 1 in
    if ltb max_int64 p
    then err database
    else ok (p, record t { positions = upsert_position m p now t.positions })

abbrev pub lower_option : Option Text → Option Text
lower_option none = none
lower_option (some s) = some (lower s)

abbrev pub entry_row : Entry → EntryRow
entry_row e = record {
  id = lower e.id;
  merchant_id = lower e.merchant_id;
  position = e.position;
  entry_type = e.entry_type;
  amount_minor = e.money.minor;
  currency = currency_brl;
  business_date = e.business_date;
  description = e.description;
  confirmed_at = e.confirmed_at;
  original_entry_id = lower_option e.original_entry_id;
}

-- the CHECK constraints of ledger.ledger_entry
abbrev pub entry_checks : EntryRow → Bool
entry_checks r =
    ltb 0 r.position
    && (is_entry_type r.entry_type
        && (not (leb_ℤ r.amount_minor (pos 0))
            && (is_int64 r.amount_minor
                && (leb (length r.description) maximum_description
                    && elim r.original_entry_id [ none ↦ true | some o ↦ not (text_eq o r.id) ]))))

-- its primary key and `UNIQUE (merchant_id, position)`
abbrev pub entry_conflicts : EntryRow → EntryRow → Bool
entry_conflicts r e =
    text_eq e.id r.id || (text_eq e.merchant_id r.merchant_id && (e.position == r.position))

abbrev pub is_original : Text → EntryRow → Bool
is_original o e = elim e.original_entry_id [ none ↦ false | some x ↦ text_eq x o ]

-- the index ledger_entry_one_reversal_per_original
abbrev pub has_reversal : Text → List EntryRow → Bool
has_reversal o = any (is_original o)

abbrev pub is_entry_of : Text → Text → EntryRow → Bool
is_entry_of merchant id e = text_eq e.merchant_id merchant && text_eq e.id id

-- the constraints on the reference to an original: the unique index, then the foreign key
abbrev pub original_error : EntryRow → List EntryRow → Option Error
original_error r es = elim r.original_entry_id [
  | none ↦ none
  | some o ↦
      if has_reversal o es
      then some already_reversed
      else if any (is_entry_of r.merchant_id o) es
      then none
      else some database
]

-- `InsertEntry`; a text column takes no zero
unfoldable pub insert_entry : Entry → Tx (Unit {0})
insert_entry entry t =
    let r = entry_row entry in
    if any (λ c. c == 0) r.description
      || (not (entry_checks r) || any (entry_conflicts r) t.entries)
    then err database
    else elim (original_error r t.entries) [
      | some e ↦ err e
      | none ↦ ok (tt, record t { entries = r ∷ t.entries })
    ]
