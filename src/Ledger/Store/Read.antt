-- ===== src/Ledger/Store/Read.antt =====
-- Rows read back as entries, and the outbox statement, of
-- services/ledger/internal/adapters/outbound/postgres/repository.go.
use keyrus.Base.{
  ℕ, Bool, not, ◌&&◌, ◌||◌, Option, none, some, List, ◌∷◌, ◌==◌, if◌then◌else◌, any, find, ok, err,
  ◌>>=◌,
}
use keyrus.Base.Text.{Text, text_eq, lower}
use keyrus.Base.Date.{format}
use keyrus.Ledger.Errors.{Fallible, entry_not_found, already_reversed, database}
use keyrus.Ledger.Money.{new_money}
use keyrus.Ledger.Identifier.{EntryId, parse_id}
use keyrus.Ledger.Entry.{Entry, new_entry, parse_entry_type}
use keyrus.Ledger.Calendar.{parse_business_date}
use keyrus.Ledger.Tables.{EntryRow, OutboxRow, Tx}
use keyrus.Ledger.Store.{has_reversal, is_entry_of}

-- `if originalText != nil { … ParseID … }`
abbrev pub parse_optional_id : Option Text → Fallible (Option EntryId)
parse_optional_id none = ok none
parse_optional_id (some s) = do id ← parse_id s; ok (some id)

-- `restoreEntry`, on the columns of a row
unfoldable pub restore_entry : EntryRow → Fallible Entry
restore_entry r = do
  id ← parse_id r.id
  merchant_id ← parse_id r.merchant_id
  entry_type ← parse_entry_type r.entry_type
  money ← new_money r.amount_minor r.currency
  date ← parse_business_date (format r.business_date)
  original ← parse_optional_id r.original_entry_id
  new_entry (record {
    id = id;
    merchant_id = merchant_id;
    position = r.position;
    entry_type = entry_type;
    money = money;
    business_date = date;
    description = r.description;
    confirmed_at = r.confirmed_at;
    original_entry_id = original;
  })

abbrev pub find_entry : EntryId → EntryId → List EntryRow → Option EntryRow
find_entry merchant id = find (is_entry_of (lower merchant) (lower id))

-- `EntryForUpdate`: an entry that no reversal refers to
unfoldable pub entry_for_update : EntryId → EntryId → Tx Entry
unfolding restore_entry
entry_for_update merchant id t = elim (find_entry merchant id t.entries) [
  | none ↦ err entry_not_found
  | some r ↦ do
    entry ← restore_entry r
    if has_reversal (lower id) t.entries then err already_reversed else ok (entry, t)
]

-- `OutboxEvent`
pub record OutboxEvent : Type 0 where
  pub event_id : EntryId
  pub entry_id : EntryId
  pub merchant_id : EntryId
  pub position : ℕ
  pub event_type : Text
  pub occurred_at : ℕ
  pub payload : Text

abbrev pub outbox_row : OutboxEvent → OutboxRow
outbox_row e = record {
  event_id = lower e.event_id;
  aggregate_id = lower e.entry_id;
  merchant_id = lower e.merchant_id;
  merchant_position = e.position;
  event_type = e.event_type;
  payload = e.payload;
  occurred_at = e.occurred_at;
}

-- the primary key and `UNIQUE (aggregate_id, event_type)`
abbrev pub outbox_conflicts : OutboxRow → OutboxRow → Bool
outbox_conflicts r o =
    text_eq o.event_id r.event_id
    || (text_eq o.aggregate_id r.aggregate_id && text_eq o.event_type r.event_type)

-- the key (merchant_id, id, position) that an outbox row refers to
abbrev pub is_source : OutboxRow → EntryRow → Bool
is_source o e =
    text_eq e.merchant_id o.merchant_id
    && (text_eq e.id o.aggregate_id && (e.position == o.merchant_position))

-- `InsertOutbox`
unfoldable pub insert_outbox_row : OutboxEvent → Tx (Unit {0})
insert_outbox_row e t =
    let r = outbox_row e in
    if any (outbox_conflicts r) t.outbox || not (any (is_source r) t.entries)
    then err database
    else ok (tt, record t { outbox = r ∷ t.outbox })
