-- ===== src/Ledger/Store/Restore.antt =====
-- An entry that is read back has the columns of its row.
use keyrus.Base.{
  ℕ, ◌≡◌, refl, Option, none, some, List, [], ◌∷◌, arith, ok, find-eq-some, Result-cases, inl, inr,
}
use keyrus.Base.Int.{ℤ}
use keyrus.Base.Text.{Text, text_eq_sound, lower, lower_byte}
use keyrus.Base.Date.{format}
use keyrus.Ledger.Money.{Money, new_money}
use keyrus.Ledger.Identifier.{EntryId, parse_id}
use keyrus.Ledger.Entry.{Entry, parse_entry_type}
use keyrus.Ledger.Entry.Rules.{new_entry-eq-ok}
use keyrus.Ledger.Calendar.{parse_business_date}
use keyrus.Ledger.Tables.{EntryRow}
use keyrus.Ledger.Store.{is_entry_of}
use keyrus.Ledger.Store.Read.{restore_entry, parse_optional_id, find_entry}

pub parse_id-eq-ok : (s : Text) {x : EntryId} → parse_id s ≡ ok x → x ≡ s
unfolding parse_id
parse_id-eq-ok s h = ground arith

new_money-eq-ok : (a : ℤ) (c : Text) {m : Money} → new_money a c ≡ ok m → m.minor ≡ a
unfolding new_money
new_money-eq-ok a c h = ground arith

parse_optional_id-eq-ok :
    (o : Option Text) {x : Option EntryId} → parse_optional_id o ≡ ok x → x ≡ o
parse_optional_id-eq-ok none h = ground arith
parse_optional_id-eq-ok (some s) h = elim (Result-cases (parse_id s)) [
  | inl (e, q) ↦ ground (arith, q)
  | inr (i, q) ↦ ground (arith, q, parse_id-eq-ok s q)
]

-- the entry of a row
pub record Restores (r : EntryRow) (e : Entry) : Type 0 where
  pub id : e.id ≡ r.id
  pub merchant_id : e.merchant_id ≡ r.merchant_id
  pub position : e.position ≡ r.position
  pub entry_type : parse_entry_type r.entry_type ≡ ok e.entry_type
  pub money : e.money.minor ≡ r.amount_minor
  pub description : e.description ≡ r.description
  pub confirmed_at : e.confirmed_at ≡ r.confirmed_at
  pub original_entry_id : e.original_entry_id ≡ r.original_entry_id

pub restore_entry-eq-ok : (r : EntryRow) (e : Entry) → restore_entry r ≡ ok e → Restores r e
unfolding restore_entry
restore_entry-eq-ok r e h = elim (Result-cases (parse_id r.id)) [
  | inl (x, q) ↦ ground (arith, q)
  | inr (id, q1) ↦ elim (Result-cases (parse_id r.merchant_id)) [
    | inl (x, q) ↦ ground (arith, q1, q)
    | inr (m, q2) ↦ elim (Result-cases (parse_entry_type r.entry_type)) [
      | inl (x, q) ↦ ground (arith, q1, q2, q)
      | inr (k, q3) ↦ elim (Result-cases (new_money r.amount_minor r.currency)) [
        | inl (x, q) ↦ ground (arith, q1, q2, q3, q)
        | inr (money, q4) ↦ elim (Result-cases (parse_business_date (format r.business_date))) [
          | inl (x, q) ↦ ground (arith, q1, q2, q3, q4, q)
          | inr (date, q5) ↦ elim (Result-cases (parse_optional_id r.original_entry_id)) [
            | inl (x, q) ↦ ground (arith, q1, q2, q3, q4, q5, q)
            | inr (o, q6) ↦
                let built : Entry = record {
                  id = id;
                  merchant_id = m;
                  position = r.position;
                  entry_type = k;
                  money = money;
                  business_date = date;
                  description = r.description;
                  confirmed_at = r.confirmed_at;
                  original_entry_id = o;
                } in
                let (same, _) = new_entry-eq-ok built e (ground (arith, q1, q2, q3, q4, q5, q6)) in
                rw same (record {
                  id = parse_id-eq-ok r.id q1;
                  merchant_id = parse_id-eq-ok r.merchant_id q2;
                  position = refl;
                  entry_type = q3;
                  money = new_money-eq-ok r.amount_minor r.currency q4;
                  description = refl;
                  confirmed_at = refl;
                  original_entry_id = parse_optional_id-eq-ok r.original_entry_id q6;
                })
          ]
        ]
      ]
    ]
  ]
]

lower_byte-lower_byte : (c : ℕ) → lower_byte (lower_byte c) ≡ lower_byte c
lower_byte-lower_byte c = ground arith

pub lower-lower : (s : Text) → lower (lower s) ≡ lower s
lower-lower [] = refl
lower-lower (c ∷ s) = cc (lower_byte-lower_byte c, lower-lower s)

-- The row that is found for an entry has its merchant and identifier.
pub find_entry-eq-some :
    (m id : EntryId) (es : List EntryRow) (r : EntryRow)
    → find_entry m id es ≡ some r
    → (r.merchant_id ≡ lower m) × (r.id ≡ lower id)
find_entry-eq-some m id es r h =
    let both = find-eq-some (is_entry_of (lower m) (lower id)) es r h in
    ground (arith, text_eq_sound r.merchant_id (lower m), text_eq_sound r.id (lower id), both)
