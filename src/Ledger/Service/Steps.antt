-- ===== src/Ledger/Service/Steps.antt =====
-- What a transaction of the Ledger has changed when it returns.
use keyrus.Base.{
  ℕ, ◌+◌, ◌≡◌, refl, subst, true, false, none, some, ◌∷◌, arith, any, ok, err, Option-cases, inl,
  inr,
}
use keyrus.Base.Text.{Text, lower}
use keyrus.Base.Date.{Date}
use keyrus.Ledger.Errors.{Fallible}
use keyrus.Ledger.Identifier.{EntryId}
use keyrus.Ledger.Entry.{Entry, new_entry, new_reversal}
use keyrus.Ledger.Tables.{EntryRow, Tables, Tx, lift, ◌>>=◌, ◌>>◌, bind-eq-ok}
use keyrus.Ledger.Store.{
  entry_row, insert_entry, entry_checks, entry_conflicts, original_error, next_position,
  last_position, upsert_position, has_reversal,
}
use keyrus.Ledger.Store.Read.{
  find_entry, restore_entry, entry_for_update, OutboxEvent, outbox_row, insert_outbox_row,
}
use keyrus.Ledger.Wire.{
  Platform, Draws, Draft, ReverseEntryInput, EntryResult, CreateEntryInput, result_from_entry,
  entry_event_type, event_wire,
}
use keyrus.Ledger.Service.{
  draft, entry_of, append_entry, reverse, refuse_reversal, reversal_date, insert_outbox,
  record_entry, create,
}

insert_entry-eq-ok :
    (e : Entry) (t u : Tables)
    → insert_entry e t ≡ ok (tt, u)
    → (u ≡ record t { entries = entry_row e ∷ t.entries })
      × (entry_checks (entry_row e) ≡ true)
      × (any (entry_conflicts (entry_row e)) t.entries ≡ false)
      × (original_error (entry_row e) t.entries ≡ none)
unfolding insert_entry
insert_entry-eq-ok e t u h = ground arith

next_position-eq-ok :
    (m : EntryId) (now : ℕ) (t u : Tables) (p : ℕ)
    → next_position m now t ≡ ok (p, u)
    → (p ≡ last_position (lower m) t.positions + 1)
      × (u ≡ record t { positions = upsert_position (lower m) p now t.positions })
unfolding next_position
next_position-eq-ok m now t u p h = ground arith

-- the event that goes with an entry
abbrev pub event_of : Platform → Draws → Entry → Text → EntryId → OutboxEvent
event_of p d e traceparent id = record {
  event_id = id;
  entry_id = e.id;
  merchant_id = e.merchant_id;
  position = e.position;
  event_type = entry_event_type;
  occurred_at = d.confirmed_at;
  payload = p.marshal_event (event_wire id e d.confirmed_at traceparent);
}

module _ (p : Platform) (d : Draws) (e : Entry) (traceparent : Text) (t u : Tables) where
  insert_outbox-eq-ok :
      insert_outbox p d e traceparent t ≡ ok (tt, u)
      → (id : EntryId) × (d.event_id ≡ ok id)
        × (u ≡ record t { outbox = outbox_row (event_of p d e traceparent id) ∷ t.outbox })
  unfolding insert_outbox
  insert_outbox-eq-ok h = go d.event_id refl h
    where
      go :
          (x : Fallible EntryId)
          → d.event_id ≡ x
          → (lift x >>= λ id. insert_outbox_row (event_of p d e traceparent id)) t ≡ ok (tt, u)
          → (id : EntryId) × (d.event_id ≡ ok id)
            × (u ≡ record t { outbox = outbox_row (event_of p d e traceparent id) ∷ t.outbox })
      go (err x) q k = cc
      go (ok id) q k = (id, q, ground arith)

-- `u` is `t` with the entry `e` and its event in front.
pub record Records (p : Platform) (d : Draws) (e : Entry) (traceparent : Text) (t u : Tables)
    : Type 0 where
  pub event_id : EntryId
  pub drawn : d.event_id ≡ ok event_id
  pub changed : u ≡ record t {
    entries = entry_row e ∷ t.entries;
    outbox = outbox_row (event_of p d e traceparent event_id) ∷ t.outbox;
  }
  pub fits : entry_checks (entry_row e) ≡ true
  pub is_new : any (entry_conflicts (entry_row e)) t.entries ≡ false
  pub referred : original_error (entry_row e) t.entries ≡ none

pub record_entry-eq-ok :
    (p : Platform) (d : Draws) (e : Entry) (traceparent : Text) (t u : Tables) (r : EntryResult)
    → record_entry p d e traceparent t ≡ ok (r, u)
    → (r ≡ result_from_entry e) × Records p d e traceparent t u
unfolding record_entry
record_entry-eq-ok p d e traceparent t u r h =
    let (_, s, h1, k) =
      bind-eq-ok (insert_entry e)
        (λ _. insert_outbox p d e traceparent >> λ s. ok (result_from_entry e, s)) t h in
    let (_, s', h2, k') =
      bind-eq-ok (insert_outbox p d e traceparent) (λ _ s. ok (result_from_entry e, s)) s k in
    let (changed, checks, conflicts, original) = insert_entry-eq-ok e t s h1 in
    let (id, drawn, sent) = insert_outbox-eq-ok p d e traceparent s s' h2 in
    (
      ground (arith, k'),
      record {
        event_id = id;
        drawn = drawn;
        changed = ground (arith, k', changed, sent);
        fits = checks;
        is_new = conflicts;
        referred = original;
      },
    )

-- `u` is `t` with the next position taken and the entry that `make` gives in front.
pub record Appends (p : Platform) (d : Draws) (merchant : EntryId)
    (make : ℕ → EntryId → Fallible Entry) (traceparent : Text) (t u : Tables) (r : EntryResult)
    : Type 0 where
  pub entry : Entry
  pub id : EntryId
  pub drawn : d.entry_id ≡ ok id
  pub made : make (last_position (lower merchant) t.positions + 1) id ≡ ok entry
  pub returned : r ≡ result_from_entry entry
  pub records :
      Records p d entry traceparent
        (record t {
          positions =
              upsert_position
                (lower merchant)
                (last_position (lower merchant) t.positions + 1)
                d.confirmed_at
                t.positions;
        })
        u

lift-eq-ok :
    {A B : Type 0} (x : Fallible A) (f : A → Tx B) (t : Tables) {y : B × Tables}
    → (lift x >>= f) t ≡ ok y
    → (a : A) × (x ≡ ok a) × (f a t ≡ ok y)
lift-eq-ok (ok a) f t h = (a, refl, h)
lift-eq-ok (err e) f t h = cc

pub append_entry-eq-ok :
    (p : Platform) (d : Draws) (m : EntryId) (make : ℕ → EntryId → Fallible Entry)
    (traceparent : Text) (t u : Tables) (r : EntryResult)
    → append_entry p d m make traceparent t ≡ ok (r, u)
    → Appends p d m make traceparent t u r
unfolding append_entry
append_entry-eq-ok p d m make traceparent t u r h =
    let (position, s, h1, k1) =
      bind-eq-ok (next_position m d.confirmed_at)
        (λ position.
          lift d.entry_id >>= λ id. lift (make position id) >>= λ e. record_entry p d e traceparent)
        t h in
    let (id, drawn, k2) =
      lift-eq-ok d.entry_id (λ id. lift (make position id) >>= λ e. record_entry p d e traceparent)
        s k1 in
    let (e, made, k3) = lift-eq-ok (make position id) (λ e. record_entry p d e traceparent) s k2 in
    let (returned, records) = record_entry-eq-ok p d e traceparent s u r k3 in
    let (at, moved) = next_position-eq-ok m d.confirmed_at t s position h1 in
    record {
      entry = e;
      id = id;
      drawn = drawn;
      made = rw at at made;
      returned = returned;
      records = rw (moved, at) at records;
    }

-- A create that returns: its draft, and the entry that is appended.
pub create-eq-ok :
    (p : Platform) (d : Draws) (m : EntryId) (input : CreateEntryInput) (t u : Tables)
    (r : EntryResult)
    → create p d m input t ≡ ok (r, u)
    → (f : Draft) × (draft p d input ≡ ok f)
      × Appends p d m
          (λ position id. new_entry (entry_of p d m input f position id))
          input.traceparent
          t
          u
          r
unfolding create
create-eq-ok p d m input t u r h =
    let (f, e, k) =
      lift-eq-ok (draft p d input)
        (λ f.
          append_entry p d m (λ position id. new_entry (entry_of p d m input f position id))
            input.traceparent)
        t h in
    (f, e, append_entry-eq-ok p d m _ input.traceparent t u r k)

entry_for_update-eq-ok :
    (m id : EntryId) (t s : Tables) (e : Entry)
    → entry_for_update m id t ≡ ok (e, s)
    → (row : EntryRow) × (find_entry m id t.entries ≡ some row)
      × (restore_entry row ≡ ok e)
      × (has_reversal (lower id) t.entries ≡ false)
      × (s ≡ t)
unfolding entry_for_update
entry_for_update-eq-ok m id t s e h = elim (Option-cases (find_entry m id t.entries)) [
  | inl missing ↦ ground (arith, missing)
  | inr (row, found) ↦ restored row found (restore_entry row) refl
]
  where
    restored :
        (row : EntryRow)
        → find_entry m id t.entries ≡ some row
        → (x : Fallible Entry) → restore_entry row ≡ x
        → (row : EntryRow) × (find_entry m id t.entries ≡ some row)
          × (restore_entry row ≡ ok e)
          × (has_reversal (lower id) t.entries ≡ false)
          × (s ≡ t)
    restored row found (err x) q = ground (arith, found, q)
    restored row found (ok x) q =
        (row, found, ground (arith, found, q), ground (arith, found, q), ground (arith, found, q))

-- A reversal that returns: the original, and the entry that is appended.
pub reverse-eq-ok :
    (p : Platform) (d : Draws) (m original_id : EntryId) (input : ReverseEntryInput) (t u : Tables)
    (r : EntryResult)
    → reverse p d m original_id input t ≡ ok (r, u)
    → (date : Date) × (row : EntryRow) × (original : Entry) × (find_entry m original_id t.entries
        ≡ some row)
      × (restore_entry row ≡ ok original)
      × (has_reversal (lower original_id) t.entries ≡ false)
      × (original.original_entry_id ≡ none)
      × Appends p d m
          (λ position id. new_reversal id position original date d.confirmed_at)
          input.traceparent
          t
          u
          r
unfolding reverse
reverse-eq-ok p d m original_id input t u r h =
    let rest = λ (date : Date) (original : Entry).
      append_entry p d m (λ position id. new_reversal id position original date d.confirmed_at)
        input.traceparent in
    let (date, _, k1) =
      lift-eq-ok (reversal_date p d input)
        (λ date. entry_for_update m original_id >>= λ original.
          lift (refuse_reversal p original) >> rest date original)
        t h in
    let (original, s, h2, k2) =
      bind-eq-ok (entry_for_update m original_id)
        (λ original. lift (refuse_reversal p original) >> rest date original) t k1 in
    let (_, allowed, k3) = lift-eq-ok (refuse_reversal p original) (λ _. rest date original) s k2 in
    let (row, found, restored, unreversed, same) =
      entry_for_update-eq-ok m original_id t s original h2 in
    (
      date,
      row,
      original,
      found,
      restored,
      unreversed,
      ground (arith, allowed),
      append_entry-eq-ok p d m _ input.traceparent t u r
          (subst (λ s. rest date original s ≡ ok (r, u)) same k3),
    )
