-- ===== src/Consolidation/Store/Conflicts.antt =====
-- What a reused identity does.
use keyrus.Base.{
  ◌≡◌, ◌≢◌, ◌⊎◌, All, ◌==◌, none, refl, ◌∙◌, ap, subst, Bool, true, false, some, List, [], ◌∷◌, any,
  find, arith, Bool-cases, Option-cases, inl, inr, ok, err,
}
use mathlib.Core.List.{Memᴰ}
use mathlib.Core.List.Memᴰ.{head, tail}
use keyrus.Base.Text.{text_eq_refl, text_eq_sound}
use keyrus.Consolidation.Event.{EntryConfirmed, Identifier, conflict_error, validate, canonical}
use keyrus.Consolidation.Projection.{
  Projection, StorePlatform, InboxRow, has_event_id, at_position, position_of, inbox_conflicts,
  init_progress, conflicting_row, same_content,
}
use keyrus.Consolidation.Store.{apply, project, transact, resolve_duplicate, fingerprint}
use keyrus.Consolidation.Store.Calls.{init_progress-inbox}

resolve_duplicate_conflict :
    (s : StorePlatform) (e : EntryConfirmed) (t : Projection) (r : InboxRow)
    → conflicting_row e t.inbox ≡ some r
    → same_content (fingerprint s e) e r ≡ false
    → resolve_duplicate s e t ≡ err conflict_error
unfolding resolve_duplicate
resolve_duplicate_conflict s e t r has other = rw (has, other) refl

-- the row has the event id, or the merchant and the position
abbrev pub Identifies : EntryConfirmed → InboxRow → Type 0
Identifies e r =
    (r.event.event_id ≡ e.event_id)
    ⊎ ((r.event.merchant_id ≡ e.merchant_id) × (position_of r.event ≡ position_of e))

-- the row is not of the same merchant, position and content
abbrev pub Differs : StorePlatform → EntryConfirmed → InboxRow → Type 0
Differs s e r =
    r.event.merchant_id ≡ e.merchant_id
    → position_of r.event ≡ position_of e
    → r.payload_fingerprint ≢ fingerprint s e

Differs-same_content :
    (s : StorePlatform) (e : EntryConfirmed) (r : InboxRow)
    → Differs s e r
    → same_content (fingerprint s e) e r ≡ false
Differs-same_content s e r differs = elim (Bool-cases (same_content (fingerprint s e) e r)) [
  | inr other ↦ other
  | inl same ↦ absurd (
      differs (text_eq_sound r.event.merchant_id e.merchant_id (ground (arith, same)))
        (ground (arith, same))
        (text_eq_sound r.payload_fingerprint (fingerprint s e) (ground (arith, same))))
]

find_All :
    (P : InboxRow → Type 0) (q : InboxRow → Bool) (rows : List InboxRow) (r : InboxRow)
    → All P rows
    → find q rows ≡ some r
    → P r
find_All P q [] r h found = absurd (ground (arith, found))
find_All P q (x ∷ xs) r (here, h) found = elim (Bool-cases (q x)) [
  | inl hit ↦ subst P (ground (arith, hit, found)) here
  | inr miss ↦ find_All P q xs r h (ground (arith, miss, found))
]

conflicting_row_All :
    (P : InboxRow → Type 0) (e : EntryConfirmed) (rows : List InboxRow) (r : InboxRow)
    → All P rows
    → conflicting_row e rows ≡ some r
    → P r
conflicting_row_All P e rows r h found = elim (Option-cases (find (has_event_id e.event_id) rows)) [
  | inl none_such ↦
      find_All P (at_position e.merchant_id (position_of e)) rows r h
        (rw (conflicting_row, none_such) at found)
  | inr (x, has) ↦
      let same : x ≡ r = ground (arith, rw (conflicting_row, has) at found) in
      subst P same (find_All P (has_event_id e.event_id) rows x h has)
]

Identifies-inbox_conflicts :
    (e : EntryConfirmed) (r : InboxRow) → Identifies e r → inbox_conflicts e r ≡ true
Identifies-inbox_conflicts e r (inl same) = rw (same, text_eq_refl e.event_id) refl
Identifies-inbox_conflicts e r (inr (owner, position)) =
    let self : (position_of e == position_of e) ≡ true = ground arith in
    let here : at_position e.merchant_id (position_of e) r ≡ true =
      rw (owner, position, self, text_eq_refl e.merchant_id) refl in
    ground (arith, here)

any-conflicts :
    (e : EntryConfirmed) (rows : List InboxRow) (r : InboxRow)
    → Memᴰ r rows
    → Identifies e r
    → any (inbox_conflicts e) rows ≡ true
any-conflicts e [] r m i = elim m [ ]
any-conflicts e (x ∷ xs) r (head h) i =
    let here = subst (λ y. inbox_conflicts e y ≡ true) h (Identifies-inbox_conflicts e r i) in
    ground (arith, here)
any-conflicts e (x ∷ xs) r (tail m) i = ground (arith, any-conflicts e xs r m i)

find-at_position :
    (e : EntryConfirmed) (rows : List InboxRow)
    → any (inbox_conflicts e) rows ≡ true
    → find (has_event_id e.event_id) rows ≡ none
    → (r : InboxRow) × (find (at_position e.merchant_id (position_of e)) rows ≡ some r)
find-at_position e [] h fresh = absurd (ground (arith, h))
find-at_position e (x ∷ xs) h fresh = elim (Bool-cases (has_event_id e.event_id x)) [
  | inl mine ↦ absurd (ground (arith, mine, fresh))
  | inr other ↦ elim (Bool-cases (at_position e.merchant_id (position_of e) x)) [
    | inl here ↦ (x, rw here refl)
    | inr elsewhere ↦
        let (r, found) =
          find-at_position e xs (ground (arith, h, other, elsewhere))
            (ground (arith, fresh, other)) in
        (r, rw elsewhere found)
  ]
]

conflicting_row_of :
    (e : EntryConfirmed) (rows : List InboxRow)
    → any (inbox_conflicts e) rows ≡ true
    → (r : InboxRow) × (conflicting_row e rows ≡ some r)
conflicting_row_of e rows h = elim (Option-cases (find (has_event_id e.event_id) rows)) [
  | inr (r, found) ↦ (r, rw (conflicting_row, found) refl)
  | inl fresh ↦
      let (r, found) = find-at_position e rows h fresh in (r, rw (conflicting_row, fresh) found)
]

-- A valid event whose identifier, or whose merchant and position, some row of the inbox has, where no
-- row of the inbox has its merchant, position and fingerprint, is refused as a conflict, and no table
-- changes.
pub apply_conflict :
    (s : StorePlatform) (works : Bool) (order : List Identifier) (e : EntryConfirmed)
    (t : Projection) (r : InboxRow)
    → validate order e ≡ ok tt
    → Memᴰ r t.inbox
    → Identifies (canonical e) r
    → All (Differs s (canonical e)) t.inbox
    → apply s works order e t ≡ (err conflict_error, t)
unfolding apply transact project
apply_conflict s works order e t r valid has same other =
    let known = any-conflicts (canonical e) t.inbox r has same in
    let (row, found) = conflicting_row_of (canonical e) t.inbox known in
    let differs =
      Differs-same_content s (canonical e) row
        (conflicting_row_All (Differs s (canonical e)) (canonical e) t.inbox row other found) in
    let start = init_progress-inbox s.now (canonical e).merchant_id t in
    let known_then = ap (any (inbox_conflicts (canonical e))) start ∙ known in
    let refused =
      resolve_duplicate_conflict s (canonical e) (init_progress s.now (canonical e).merchant_id t)
        row (ap (conflicting_row (canonical e)) start ∙ found) differs in
    rw (valid, apply, known_then, project, refused, transact) refl
