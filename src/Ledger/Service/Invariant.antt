-- ===== src/Ledger/Service/Invariant.antt =====
-- Positions and events of the Ledger: every merchant's entries have the positions from 1 to its
-- last one, and every entry has one event, in the same order.
use keyrus.Base.{
  ℕ, zero, suc, ◌+◌, ◌≡◌, refl, sym, ◌∙◌, ap, subst, List, [], ◌∷◌, arith, if◌then◌else◌, map, inl,
  inr, Result-cases, Bool-cases,
}
use native.Mathlib.Numerals.{add-one}
use keyrus.Base.Text.{Text, text_eq, text_eq_iff, text_eq_sound, lower}
use keyrus.Ledger.Errors.{Fallible}
use keyrus.Ledger.Identifier.{EntryId, parse_id}
use keyrus.Ledger.Entry.{Entry}
use keyrus.Ledger.Tables.{PositionRow, EntryRow, OutboxRow, Tables}
use keyrus.Ledger.Store.{entry_row, last_position, upsert_position}
use keyrus.Ledger.Wire.{
  Platform, Draws, EntryResult, CreateEntryInput, ReverseEntryInput, operation_create,
  operation_reverse, reverse_body,
}
use keyrus.Ledger.Service.{
  parse_merchant, check_key, body_of_create, entry_of, create, reverse, create_entry, reverse_entry,
}
use keyrus.Ledger.Service.Steps.{Appends, create-eq-ok, reverse-eq-ok}
use keyrus.Ledger.Service.Keeps.{KeepsOk, IgnoresAttempts, execute_idempotent-keeps}
use keyrus.Ledger.Entry.Rules.{new_entry-eq-ok, new_reversal-eq-ok}
use keyrus.Ledger.Store.Restore.{restore_entry-eq-ok, find_entry-eq-some, lower-lower}

-- n, n - 1, … 1
abbrev pub countdown : ℕ → List ℕ
countdown zero = []
countdown (suc n) = suc n ∷ countdown n

-- the positions of a merchant's entries, newest first
abbrev pub positions_of : Text → List EntryRow → List ℕ
positions_of m [] = []
positions_of m (e ∷ es) =
    if text_eq e.merchant_id m then e.position ∷ positions_of m es else positions_of m es

-- what names an entry in the outbox
pub record Key : Type 0 where
  pub merchant_id : Text
  pub id : Text
  pub position : ℕ

abbrev pub entry_key : EntryRow → Key
entry_key e = record { merchant_id = e.merchant_id; id = e.id; position = e.position }

abbrev pub outbox_key : OutboxRow → Key
outbox_key o = record {
  merchant_id = o.merchant_id;
  id = o.aggregate_id;
  position = o.merchant_position;
}

pub record IsConsistent (t : Tables) : Type 0 where
  pub contiguous : (m : Text) → positions_of m t.entries ≡ countdown (last_position m t.positions)
  pub announced : map outbox_key t.outbox ≡ map entry_key t.entries

last_position-upsert :
    (k m : Text) (p now : ℕ) (ps : List PositionRow)
    → last_position k (upsert_position m p now ps) ≡ (if text_eq m k then p else last_position k ps)
unfolding last_position
last_position-upsert k m p now [] = refl
last_position-upsert k m p now (r ∷ ps) = ground (
  arith,
  text_eq_iff r.merchant_id m,
  text_eq_iff r.merchant_id k,
  text_eq_iff m k,
  last_position-upsert k m p now ps,
)

countdown_next : (n : ℕ) → countdown (n + 1) ≡ (n + 1) ∷ countdown n
countdown_next n = rw add-one

contiguous_next :
    (m k : Text) (e : EntryRow) (es : List EntryRow) (ps : List PositionRow) (now : ℕ)
    → e.merchant_id ≡ m
    → e.position ≡ last_position m ps + 1
    → positions_of k es ≡ countdown (last_position k ps)
    → positions_of k (e ∷ es)
      ≡ countdown (last_position k (upsert_position m (last_position m ps + 1) now ps))
contiguous_next m k e es ps now owner next h = elim (Bool-cases (text_eq m k)) [
  | inl same ↦
      let here : m ≡ k = text_eq_sound m k same in
      rw (last_position-upsert, owner, same, next, countdown_next, h, here)
  | inr other ↦ rw (last_position-upsert, owner, other) h
]

-- Appending the next entry of a merchant keeps the tables consistent.
Appends-IsConsistent :
    (p : Platform) (d : Draws) (m : EntryId) (make : ℕ → EntryId → Fallible Entry)
    (traceparent : Text) (t u : Tables) (r : EntryResult) (a : Appends p d m make traceparent t u r)
    → lower a.entry.merchant_id ≡ lower m
    → a.entry.position ≡ last_position (lower m) t.positions + 1
    → IsConsistent t
    → IsConsistent u
Appends-IsConsistent p d m make traceparent t u r a owner next h =
    subst IsConsistent (sym a.records.changed) (record {
      contiguous = λ k.
          contiguous_next (lower m) k (entry_row a.entry) t.entries t.positions d.confirmed_at owner
            next (h.contiguous k);
      announced = ap (λ keys. entry_key (entry_row a.entry) ∷ keys) h.announced;
    })

create-keeps :
    (p : Platform) (d : Draws) (m : EntryId) (input : CreateEntryInput)
    → KeepsOk IsConsistent (create p d m input)
create-keeps p d m input t u r h c =
    let (f, drafted, a) = create-eq-ok p d m input t u r h in
    let position = last_position (lower m) t.positions + 1 in
    let (same, _) = new_entry-eq-ok (entry_of p d m input f position a.id) a.entry a.made in
    Appends-IsConsistent p d m _ input.traceparent t u r a
      (ap (λ (e : Entry). lower e.merchant_id) same) (ap (λ (e : Entry). e.position) same) c

reverse-keeps :
    (p : Platform) (d : Draws) (m original_id : EntryId) (input : ReverseEntryInput)
    → KeepsOk IsConsistent (reverse p d m original_id input)
reverse-keeps p d m original_id input t u r h c =
    let (date, row, original, found, restored, _, _, a) =
      reverse-eq-ok p d m original_id input t u r h in
    let position = last_position (lower m) t.positions + 1 in
    let (_, reverses, _, at, _, _) =
      new_reversal-eq-ok a.id position original date d.confirmed_at a.entry a.made in
    let owner : a.entry.merchant_id ≡ lower m =
      reverses.owner
      ∙ (restore_entry-eq-ok row original restored).merchant_id
      ∙ (find_entry-eq-some m original_id t.entries row found).0 in
    Appends-IsConsistent p d m _ input.traceparent t u r a (ap lower owner ∙ lower-lower m) at c

ignores : IgnoresAttempts IsConsistent
ignores t rows c = record { contiguous = c.contiguous; announced = c.announced }

-- However a call of `CreateEntry` ends, every merchant's entries have the positions from 1 to its
-- last position, and the outbox has exactly one event for every entry, in the order of the entries.
pub create_entry-IsConsistent :
    (p : Platform) (d : Draws) (input : CreateEntryInput) (t : Tables)
    → IsConsistent t
    → IsConsistent (create_entry p d input t).1
unfolding create_entry
create_entry-IsConsistent p d input t c = elim (Result-cases (parse_merchant input.merchant_id)) [
  | inl (e, q) ↦ rw (q, create_entry) c
  | inr (m, q) ↦ elim (Result-cases (check_key p input.idempotency_key input.traceparent)) [
    | inl (e, k) ↦ rw (q, create_entry, k) c
    | inr (_, k) ↦
        rw (q, create_entry, k)
          (execute_idempotent-keeps p IsConsistent ignores d m operation_create
            input.idempotency_key (body_of_create p input) (create p d m input) t
            (create-keeps p d m input) c)
  ]
]

-- The same of `ReverseEntry`.
pub reverse_entry-IsConsistent :
    (p : Platform) (d : Draws) (input : ReverseEntryInput) (t : Tables)
    → IsConsistent t
    → IsConsistent (reverse_entry p d input t).1
unfolding reverse_entry
reverse_entry-IsConsistent p d input t c = elim (Result-cases (parse_merchant input.merchant_id)) [
  | inl (e, q) ↦ rw (q, reverse_entry) c
  | inr (m, q) ↦ elim (Result-cases (parse_id input.original_entry_id)) [
    | inl (e, k) ↦ rw (q, reverse_entry, k) c
    | inr (o, k) ↦ elim (Result-cases (check_key p input.idempotency_key input.traceparent)) [
      | inl (e, l) ↦ rw (q, reverse_entry, k, l) c
      | inr (_, l) ↦
          rw (q, reverse_entry, k, l)
            (execute_idempotent-keeps p IsConsistent ignores d m operation_reverse
              input.idempotency_key (reverse_body input.original_entry_id) (reverse p d m o input) t
              (reverse-keeps p d m o input) c)
    ]
  ]
]
