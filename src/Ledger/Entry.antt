-- ===== src/Ledger/Entry.antt =====
-- services/ledger/internal/domain/entry.go: a confirmed entry and its reversal. Instants are
-- microseconds since the zero time, so 0 is `time.Time{}`; a description is its code points.
pub mod Rules
use keyrus.Base.{
  ℕ, Bool, true, false, not, ◌&&◌, ◌||◌, Option, none, some, List, [], ◌∷◌, ltb, ◌==◌,
  if◌then◌else◌, length, ok, err, ◌>>=◌, ◌>>◌, fail_if,
}
use keyrus.Base.Int.{ℤ, pos, leb_ℤ}
use keyrus.Base.Text.{Text, codes, text_eq, lower_byte}
use keyrus.Base.Date.{Date, is_zero_date}
use keyrus.Ledger.Errors.{
  Fallible, invalid_id, invalid_merchant, invalid_entry_type, invalid_amount, invalid_business_date,
  description_too_long, reversal_not_allowed,
}
use keyrus.Ledger.Money.{Money}
use keyrus.Ledger.Identifier.{EntryId}

abbrev pub credit : Text
credit = codes "credit"

abbrev pub debit : Text
debit = codes "debit"

-- `typeValue != EntryTypeCredit && typeValue != EntryTypeDebit`
abbrev pub is_entry_type : Text → Bool
is_entry_type t = text_eq t credit || text_eq t debit

abbrev lower_letter : ℕ → Text → Text
lower_letter c [] = lower_byte c ∷ []
lower_letter c (d ∷ s) = if (c == 196) && (d == 176) then b'i' ∷ s else lower_byte c ∷ d ∷ s

-- `strings.ToLower` on UTF-8, as far as the tests on its result see it: U+0130 becomes an i, and no
-- other letter outside ASCII becomes a letter of the two types.
unfoldable pub to_lower : Text → Text
to_lower [] = []
to_lower (c ∷ s) = lower_letter c (to_lower s)

-- `ParseEntryType`
unfoldable pub parse_entry_type : Text → Fallible Text
unfolding to_lower
parse_entry_type value =
    if is_entry_type (to_lower value) then ok (to_lower value) else err invalid_entry_type

unfoldable pub opposite : Text → Text
opposite t = if text_eq t credit then debit else credit

-- `Entry`, and `EntryData`, which has the same fields
pub record Entry : Type 0 where
  pub id : EntryId
  pub merchant_id : EntryId
  pub position : ℕ
  pub entry_type : Text
  pub money : Money
  pub business_date : Date
  pub description : List ℕ
  pub confirmed_at : ℕ
  pub original_entry_id : Option EntryId

abbrev pub maximum_description : ℕ
maximum_description = 500

abbrev pub is_empty : Text → Bool
is_empty [] = true
is_empty (c ∷ s) = false

-- `NewEntry`; a position comes from a column that holds no negative number.
unfoldable pub new_entry : Entry → Fallible Entry
new_entry d = do
  fail_if (is_empty d.id) invalid_id
  fail_if (is_empty d.merchant_id) invalid_merchant
  fail_if (d.position == 0) invalid_id
  fail_if (not (is_entry_type d.entry_type)) invalid_entry_type
  fail_if (leb_ℤ d.money.minor (pos 0)) invalid_amount
  fail_if (is_zero_date d.business_date) invalid_business_date
  fail_if (d.confirmed_at == 0) invalid_business_date
  fail_if (ltb maximum_description (length d.description)) description_too_long
  ok d

-- `NewReversal`
unfoldable pub new_reversal : EntryId → ℕ → Entry → Date → ℕ → Fallible Entry
unfolding new_entry opposite
new_reversal id position original date confirmed_at = elim original.original_entry_id [
  | some _ ↦ err reversal_not_allowed
  | none ↦ new_entry (record {
    id = id;
    merchant_id = original.merchant_id;
    position = position;
    entry_type = opposite original.entry_type;
    money = original.money;
    business_date = date;
    description = [];
    confirmed_at = confirmed_at;
    original_entry_id = some original.id;
  })
]
