-- ===== src/Ledger/Service/Settled.antt =====
-- Reversals: an entry is reversed at most once, a reversal never, and a reversal undoes the amount.
use keyrus.Base.{
  ◌+◌, ◌≡◌, sym, ◌∙◌, ap, subst, Bool, true, false, Option, none, some, List, [], ◌∷◌, arith, find,
  ok, inl, inr, Result-cases, Bool-cases,
}
use keyrus.Base.Text.{Text, text_eq, text_eq_sound, lower}
use keyrus.Ledger.Money.{Money}
use keyrus.Ledger.Identifier.{EntryId, parse_id}
use keyrus.Ledger.Entry.{Entry, opposite, is_entry_type, credit, debit, parse_entry_type, to_lower}
use keyrus.Ledger.Entry.Rules.{
  AreOpposite, opposite-AreOpposite, new_entry-eq-ok, new_reversal-eq-ok,
}
use keyrus.Ledger.Tables.{EntryRow, Tables}
use keyrus.Ledger.Store.{
  entry_row, entry_checks, is_entry_of, has_reversal, last_position, lower_option,
}
use keyrus.Ledger.Store.Restore.{restore_entry-eq-ok, find_entry-eq-some, lower-lower}
use keyrus.Ledger.Wire.{
  Platform, Draws, CreateEntryInput, ReverseEntryInput, operation_create, operation_reverse,
  reverse_body,
}
use keyrus.Ledger.Service.{
  entry_of, parse_merchant, check_key, body_of_create, create, reverse, create_entry, reverse_entry,
}
use keyrus.Ledger.Service.Steps.{create-eq-ok, reverse-eq-ok}
use keyrus.Ledger.Service.Keeps.{KeepsOk, IgnoresAttempts, execute_idempotent-keeps}

-- The entry `e` reverses one of the older entries `es`, for the first time.
pub record Undoes (e : EntryRow) (o : Text) (es : List EntryRow) : Type 0 where
  pub original : EntryRow
  pub found : find (is_entry_of e.merchant_id o) es ≡ some original
  pub is_no_reversal : original.original_entry_id ≡ none
  pub same_amount : e.amount_minor ≡ original.amount_minor
  pub opposed : AreOpposite e.entry_type original.entry_type
  pub first : has_reversal o es ≡ false

abbrev pub UndoesOriginal : EntryRow → Option Text → List EntryRow → Type 0
UndoesOriginal e none es = Unit
UndoesOriginal e (some o) es = Undoes e o es

-- newest first: every entry has a type, and every reversal undoes an older entry
abbrev pub IsSettled : List EntryRow → Type 0
IsSettled [] = Unit
IsSettled (e ∷ es) =
    (is_entry_type e.entry_type ≡ true) × UndoesOriginal e e.original_entry_id es × IsSettled es

find-typed :
    (p : EntryRow → Bool) (es : List EntryRow) (r : EntryRow)
    → IsSettled es
    → find p es ≡ some r
    → is_entry_type r.entry_type ≡ true
find-typed p [] r h f = cc
find-typed p (e ∷ es) r h f = elim (Bool-cases (p e)) [
  | inl here ↦
      let same : e ≡ r = ground (arith, here, f) in
      subst (λ (x : EntryRow). is_entry_type x.entry_type ≡ true) same h.0
  | inr later ↦ find-typed p es r h.2 (ground (arith, later, f))
]

lower_type : (t : Text) → is_entry_type t ≡ true → to_lower t ≡ t
unfolding to_lower
lower_type t h = elim (Bool-cases (text_eq t credit)) [
  | inl c ↦ let e = text_eq_sound t credit c in ap to_lower e ∙ sym e
  | inr other ↦ let e = text_eq_sound t debit (ground (arith, other, h)) in ap to_lower e ∙ sym e
]

parse_entry_type-typed : (t s : Text) → is_entry_type t ≡ true → parse_entry_type t ≡ ok s → s ≡ t
unfolding parse_entry_type
parse_entry_type-typed t s h e =
    let same = lower_type t h in ground (arith, h, rw (parse_entry_type, same, h) at e)

checks-typed : (r : EntryRow) → entry_checks r ≡ true → is_entry_type r.entry_type ≡ true
checks-typed r h = ground (arith, h)

create-settles :
    (p : Platform) (d : Draws) (m : EntryId) (input : CreateEntryInput)
    → KeepsOk (λ t. IsSettled t.entries) (create p d m input)
create-settles p d m input t u r h s =
    let (f, drafted, a) = create-eq-ok p d m input t u r h in
    let position = last_position (lower m) t.positions + 1 in
    let (same, _) = new_entry-eq-ok (entry_of p d m input f position a.id) a.entry a.made in
    let entries : u.entries ≡ entry_row a.entry ∷ t.entries =
      ap (λ (x : Tables). x.entries) a.records.changed in
    subst IsSettled (sym entries) (
      checks-typed (entry_row a.entry) a.records.fits,
      subst (λ (o : Option Text). UndoesOriginal (entry_row a.entry) (lower_option o) t.entries)
          (sym (ap (λ (e : Entry). e.original_entry_id) same)) tt,
      s,
    )

reverse-settles :
    (p : Platform) (d : Draws) (m o : EntryId) (input : ReverseEntryInput)
    → KeepsOk (λ t. IsSettled t.entries) (reverse p d m o input)
reverse-settles p d m o input t u r h s =
    let (date, row, original, found, restored, unreversed, fresh, a) =
      reverse-eq-ok p d m o input t u r h in
    let position = last_position (lower m) t.positions + 1 in
    let (_, reverses, _, _, _, _) =
      new_reversal-eq-ok a.id position original date d.confirmed_at a.entry a.made in
    let back = restore_entry-eq-ok row original restored in
    let (row_owner, row_id) = find_entry-eq-some m o t.entries row found in
    let typed = find-typed (is_entry_of (lower m) (lower o)) t.entries row s found in
    let owner : lower a.entry.merchant_id ≡ lower m =
      ap lower (reverses.owner ∙ back.merchant_id ∙ row_owner) ∙ lower-lower m in
    let name : lower original.id ≡ lower o = ap lower (back.id ∙ row_id) ∙ lower-lower o in
    let same_type : original.entry_type ≡ row.entry_type =
      parse_entry_type-typed row.entry_type original.entry_type typed back.entry_type in
    let undone : Undoes (entry_row a.entry) (lower o) t.entries = record {
      original = row;
      found = ap (λ x. find (is_entry_of x (lower o)) t.entries) owner ∙ found;
      is_no_reversal = sym back.original_entry_id ∙ fresh;
      same_amount = ap (λ (x : Money). x.minor) reverses.same_money ∙ back.money;
      opposed =
          subst (λ x. AreOpposite x row.entry_type) (sym (reverses.opposed ∙ ap opposite same_type))
            (opposite-AreOpposite row.entry_type typed);
      first = unreversed;
    } in
    let entries : u.entries ≡ entry_row a.entry ∷ t.entries =
      ap (λ (x : Tables). x.entries) a.records.changed in
    subst IsSettled (sym entries) (
      checks-typed (entry_row a.entry) a.records.fits,
      subst (λ (x : Option Text). UndoesOriginal (entry_row a.entry) x t.entries)
          (sym (ap lower_option reverses.refers ∙ ap some name)) undone,
      s,
    )

ignores : IgnoresAttempts (λ t. IsSettled t.entries)
ignores t rows s = s

-- However a call of `CreateEntry` ends, every reversal in the ledger undoes an older entry of the
-- same merchant that is no reversal itself: same amount, opposite type, and no second reversal.
pub create_entry-IsSettled :
    (p : Platform) (d : Draws) (input : CreateEntryInput) (t : Tables)
    → IsSettled t.entries
    → IsSettled (create_entry p d input t).1.entries
unfolding create_entry
create_entry-IsSettled p d input t c = elim (Result-cases (parse_merchant input.merchant_id)) [
  | inl (e, q) ↦ rw (q, create_entry) c
  | inr (m, q) ↦ elim (Result-cases (check_key p input.idempotency_key input.traceparent)) [
    | inl (e, k) ↦ rw (q, create_entry, k) c
    | inr (_, k) ↦
        rw (q, create_entry, k)
          (execute_idempotent-keeps p (λ t. IsSettled t.entries) ignores d m operation_create
            input.idempotency_key (body_of_create p input) (create p d m input) t
            (create-settles p d m input) c)
  ]
]

-- The same of `ReverseEntry`, whatever entry it is asked to reverse, and however often.
pub reverse_entry-IsSettled :
    (p : Platform) (d : Draws) (input : ReverseEntryInput) (t : Tables)
    → IsSettled t.entries
    → IsSettled (reverse_entry p d input t).1.entries
unfolding reverse_entry
reverse_entry-IsSettled p d input t c = elim (Result-cases (parse_merchant input.merchant_id)) [
  | inl (e, q) ↦ rw (q, reverse_entry) c
  | inr (m, q) ↦ elim (Result-cases (parse_id input.original_entry_id)) [
    | inl (e, k) ↦ rw (q, reverse_entry, k) c
    | inr (o, k) ↦ elim (Result-cases (check_key p input.idempotency_key input.traceparent)) [
      | inl (e, l) ↦ rw (q, reverse_entry, k, l) c
      | inr (_, l) ↦
          rw (q, reverse_entry, k, l)
            (execute_idempotent-keeps p (λ t. IsSettled t.entries) ignores d m operation_reverse
              input.idempotency_key (reverse_body input.original_entry_id) (reverse p d m o input) t
              (reverse-settles p d m o input) c)
    ]
  ]
]
