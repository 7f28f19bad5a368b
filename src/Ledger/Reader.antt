-- ===== src/Ledger/Reader.antt =====
-- The readers of services/ledger/internal/application/service.go, with their queries of
-- services/ledger/internal/adapters/outbound/postgres/repository.go.
pub mod Watermark
use keyrus.Base.{ℕ, Option, none, some, List, ok, err, ◌>>=◌, find, or_fail}
use keyrus.Base.Text.{Text, codes, text_eq, lower}
use keyrus.Ledger.Errors.{Fallible, entry_not_found}
use keyrus.Ledger.Identifier.{EntryId, parse_id}
use keyrus.Ledger.Entry.{Entry}
use keyrus.Ledger.Tables.{EntryRow, Tables}
use keyrus.Ledger.Store.{is_original, last_position}
use keyrus.Ledger.Store.Read.{restore_entry, find_entry, parse_optional_id}
use keyrus.Ledger.Wire.{EntryResult, result_from_entry}
use keyrus.Ledger.Service.{parse_merchant}

-- `StoredEntry`
pub record StoredEntry : Type 0 where
  pub entry : Entry
  pub reversal_entry_id : Option EntryId

abbrev id_of : Option EntryRow → Option Text
id_of none = none
id_of (some r) = some r.id

-- the LEFT JOIN of `storedEntrySelect`, which the unique index makes one row at most
abbrev pub reversal_of : Text → List EntryRow → Option Text
reversal_of id es = id_of (find (is_original id) es)

-- `scanStoredEntry`, on a row and the identifier of its reversal
unfoldable pub scan_stored_entry : EntryRow → Option Text → Fallible StoredEntry
unfolding restore_entry
scan_stored_entry r reversal = do
  entry ← restore_entry r
  reversal_id ← parse_optional_id reversal
  ok (record { entry = entry; reversal_entry_id = reversal_id })

abbrev pub state_reversed : Text
state_reversed = codes "reversed"

-- `resultFromStored`
unfoldable pub result_from_stored : StoredEntry → EntryResult
unfolding result_from_entry
result_from_stored s = elim s.reversal_entry_id [
  | none ↦ result_from_entry s.entry
  | some id ↦ record (result_from_entry s.entry) { reversal_entry_id = id; state = state_reversed }
]

-- `Repository.GetEntry`
unfoldable pub read_entry : EntryId → EntryId → Tables → Fallible StoredEntry
unfolding scan_stored_entry
read_entry merchant id t = do
  r ← or_fail (find_entry merchant id t.entries) entry_not_found
  scan_stored_entry r (reversal_of r.id t.entries)

-- `GetEntry`
unfoldable pub get_entry : Text → Text → Tables → Fallible EntryResult
unfolding parse_merchant read_entry result_from_stored
get_entry merchant_text id_text t = do
  merchant ← parse_merchant merchant_text
  id ← parse_id id_text
  stored ← read_entry merchant id t
  ok (result_from_stored stored)

-- `OwnerOf`, with the query of the repository
unfoldable pub owner_of_entry : Text → Tables → Fallible Text
owner_of_entry id_text t = do
  id ← parse_id id_text
  r ← or_fail (find (λ (e : EntryRow). text_eq e.id (lower id)) t.entries) entry_not_found
  ok r.merchant_id

-- `SourcePosition`, with the query of the repository
unfoldable pub source_position_of : Text → Tables → Fallible ℕ
unfolding parse_merchant last_position
source_position_of merchant_text t = do
  merchant ← parse_merchant merchant_text
  ok (last_position (lower merchant) t.positions)
