-- ===== src/Consolidation/Store/Once.antt =====
-- What a redelivery of an event does: an event takes effect once, and a reused identity is refused.
use keyrus.Base.{
  ℕ, ◌≡◌, refl, ◌∙◌, ap, subst, Bool, true, false, Option, some, List, [], ◌∷◌, any, find, arith,
  Bool-cases, Option-cases, Result-cases, inl, inr, ok,
}
use keyrus.Base.Text.{Text, text_eq, text_eq_refl, text_eq_sound, lower}
use keyrus.Consolidation.Event.{EntryConfirmed, Identifier, validate, canonical}
use keyrus.Consolidation.Query.{MerchantProgress}
use keyrus.Consolidation.Projection.{
  Projection, ProjectionResult, StorePlatform, InboxRow, has_event_id, inbox_conflicts,
  init_progress, is_some, has_pending_recompute, conflicting_row, same_content,
}
use keyrus.Consolidation.Store.{
  apply, project, transact, resolve_duplicate, resume_next, inbox_row, none_recomputed, fingerprint,
}
use keyrus.Consolidation.Store.Steps.{
  IsApplied, process_block-eq-ok, apply_new-IsApplied, apply_new-pending,
}
use keyrus.Consolidation.Store.Calls.{
  Applies, unchanged, started, new, apply-Applies, Resumes, idle, processed, resume_next-Resumes,
  init_progress-inbox,
}

-- the inbox finds `r` by its event id, and its merchant has a row of progress
pub record IsRecorded (r : InboxRow) (t : Projection) : Type 0 where
  pub kept : find (has_event_id r.event.event_id) t.inbox ≡ some r
  pub tracked : is_some (t.progress r.event.merchant_id) ≡ true

init_progress-IsRecorded :
    (r : InboxRow) (now : ℕ) (m : Text) (t : Projection)
    → IsRecorded r t
    → IsRecorded r (init_progress now m t)
unfolding init_progress
init_progress-IsRecorded r now m t i = elim (Bool-cases (is_some (t.progress m))) [
  | inl had ↦ rw had i
  | inr first ↦ rw first (record { kept = i.kept; tracked = ground (arith, i.tracked) })
]

-- a row that the inbox has is no row of an event that conflicts with none
find_fresh :
    (e : EntryConfirmed) (id : Text) (rows : List InboxRow) (r : InboxRow)
    → any (inbox_conflicts e) rows ≡ false
    → find (has_event_id id) rows ≡ some r
    → text_eq e.event_id id ≡ false
find_fresh e id [] r fresh has = absurd (ground (arith, has))
find_fresh e id (x ∷ xs) r fresh has = elim (Bool-cases (text_eq e.event_id id)) [
  | inr other ↦ other
  | inl same ↦
      let here =
        subst (λ i. has_event_id i x ≡ false) (text_eq_sound e.event_id id same)
          (ground (arith, fresh)) in
      find_fresh e id xs r (ground (arith, fresh)) (ground (arith, here, has))
]

IsApplied-IsRecorded :
    (r : InboxRow) (s : StorePlatform) (e : EntryConfirmed) (t u : Projection)
    → any (inbox_conflicts e) t.inbox ≡ false
    → IsApplied s e t u
    → IsRecorded r t
    → IsRecorded r u
IsApplied-IsRecorded r s e t u fresh a i =
    let id = r.event.event_id in
    record {
      kept =
          ap (find (has_event_id id)) a.inbox_after
          ∙ rw (find_fresh e id t.inbox r fresh i.kept) i.kept;
      tracked =
          ap (λ (f : Text → Option MerchantProgress). is_some (f r.event.merchant_id))
            a.progress_after
          ∙ ground (arith, i.tracked);
    }

new-IsRecorded :
    (s : StorePlatform) (e : EntryConfirmed) (t u : Projection)
    → IsApplied s e t u
    → IsRecorded (inbox_row s e) u
new-IsRecorded s e t u a = record {
  kept = ap (find (has_event_id e.event_id)) a.inbox_after ∙ rw (text_eq_refl e.event_id) refl;
  tracked =
      ap (λ (f : Text → Option MerchantProgress). is_some (f e.merchant_id)) a.progress_after
      ∙ rw (text_eq_refl e.merchant_id) refl;
}

Applies-IsRecorded :
    (r : InboxRow) (s : StorePlatform) (e : EntryConfirmed) (t u : Projection)
    → Applies s e t u
    → IsRecorded r t
    → IsRecorded r u
unfolding init_progress
Applies-IsRecorded r s e t u unchanged i = i
Applies-IsRecorded r s e t u started i = init_progress-IsRecorded r s.now e.merchant_id t i
Applies-IsRecorded r s e t u (new v fresh a) i =
    IsApplied-IsRecorded r s e (init_progress s.now e.merchant_id t) u
      (ap (any (inbox_conflicts e)) (init_progress-inbox s.now e.merchant_id t) ∙ fresh) a
      (init_progress-IsRecorded r s.now e.merchant_id t i)

pub apply-IsRecorded :
    (r : InboxRow) (s : StorePlatform) (works : Bool) (order : List Identifier) (e : EntryConfirmed)
    (t : Projection)
    → IsRecorded r t
    → IsRecorded r (apply s works order e t).1
apply-IsRecorded r s works order e t i =
    Applies-IsRecorded r s (canonical e) t (apply s works order e t).1
      (apply-Applies s works order e t) i

Resumes-IsRecorded :
    (r : InboxRow) (m : Text) (t u : Projection) → Resumes m t u → IsRecorded r t → IsRecorded r u
Resumes-IsRecorded r m t u idle i = i
Resumes-IsRecorded r m t u (processed j w v found done) i =
    let (days, closed, made) = process_block-eq-ok j 1 t u w done in
    record {
      kept = ap (λ (x : Projection). find (has_event_id r.event.event_id) x.inbox) made ∙ i.kept;
      tracked = ap (λ (x : Projection). is_some (x.progress r.event.merchant_id)) made ∙ i.tracked;
    }

pub resume_next-IsRecorded :
    (r : InboxRow) (works : Bool) (merchant : Text) (t : Projection)
    → IsRecorded r t
    → IsRecorded r (resume_next works merchant t).1
resume_next-IsRecorded r works merchant t i =
    Resumes-IsRecorded r (lower merchant) t (resume_next works merchant t).1
      (resume_next-Resumes works merchant t) i

resolve_duplicate-is_duplicate :
    (s : StorePlatform) (e : EntryConfirmed) (t : Projection) (r : ProjectionResult)
    → resolve_duplicate s e t ≡ ok r
    → r.is_duplicate ≡ true
unfolding resolve_duplicate
resolve_duplicate-is_duplicate s e t r h = elim (Option-cases (conflicting_row e t.inbox)) [
  | inl bad ↦ ground (arith, bad, h)
  | inr (row, found) ↦ elim (Bool-cases (same_content (fingerprint s e) e row)) [
    | inr differs ↦ ground (arith, found, differs, h)
    | inl same ↦ elim (Option-cases (t.progress e.merchant_id)) [
      | inl bad ↦ ground (arith, found, same, bad, h)
      | inr (p, had) ↦ ground (arith, found, same, had, h)
    ]
  ]
]

apply-eq-ok :
    (s : StorePlatform) (works : Bool) (order : List Identifier) (e : EntryConfirmed)
    (t u : Projection) (r : ProjectionResult)
    → apply s works order e t ≡ (ok r, u)
    → project s (canonical e) t ≡ ok (r, u)
unfolding apply transact
apply-eq-ok s works order e t u r h = elim (Result-cases (validate order e)) [
  | inl (f, bad) ↦ ground (arith, bad, h)
  | inr (_, good) ↦ elim (Result-cases (project s (canonical e) t)) [
    | inl (f, bad) ↦ ground (arith, good, bad, h)
    | inr ((q, v), done) ↦ elim (Bool-cases works) [
      | inl up ↦ ground (arith, good, done, up, h)
      | inr down ↦ ground (arith, good, done, down, h)
    ]
  ]
]

project-ok-IsApplied :
    (s : StorePlatform) (e : EntryConfirmed) (t u : Projection) (r : ProjectionResult)
    → project s e t ≡ ok (r, u)
    → r.is_duplicate ≡ false
    → IsApplied s e (init_progress s.now e.merchant_id t) u
      × (r.recompute_pending ≡ has_pending_recompute e.merchant_id u)
unfolding project
project-ok-IsApplied s e t u r h first =
    let begun = init_progress s.now e.merchant_id t in
    elim (Bool-cases (any (inbox_conflicts e) begun.inbox)) [
      | inr fresh ↦
          let done = rw (fresh, project) at h in
          (apply_new-IsApplied s e begun u r done, apply_new-pending s e begun u r done)
      | inl known ↦ elim (Result-cases (resolve_duplicate s e begun)) [
        | inl (f, bad) ↦ ground (arith, known, bad, h)
        | inr (q, found) ↦
            let same : q ≡ r = ground (arith, known, found, h) in
            absurd (ground (arith, same, first, resolve_duplicate-is_duplicate s e begun q found))
      ]
    ]

-- What a call that reports a new event has done.
pub apply-ok-IsApplied :
    (s : StorePlatform) (works : Bool) (order : List Identifier) (e : EntryConfirmed)
    (t u : Projection) (r : ProjectionResult)
    → apply s works order e t ≡ (ok r, u)
    → r.is_duplicate ≡ false
    → IsApplied s (canonical e) (init_progress s.now (canonical e).merchant_id t) u
      × (r.recompute_pending ≡ has_pending_recompute (canonical e).merchant_id u)
apply-ok-IsApplied s works order e t u r h first =
    project-ok-IsApplied s (canonical e) t u r (apply-eq-ok s works order e t u r h) first

-- A call that reports a new event has recorded it.
pub apply-ok-IsRecorded :
    (s : StorePlatform) (works : Bool) (order : List Identifier) (e : EntryConfirmed)
    (t u : Projection) (r : ProjectionResult)
    → apply s works order e t ≡ (ok r, u)
    → r.is_duplicate ≡ false
    → IsRecorded (inbox_row s (canonical e)) u
apply-ok-IsRecorded s works order e t u r h first =
    new-IsRecorded s (canonical e) (init_progress s.now (canonical e).merchant_id t) u
      (apply-ok-IsApplied s works order e t u r h first).0

find-any :
    (e : EntryConfirmed) (rows : List InboxRow) (r : InboxRow)
    → conflicting_row e rows ≡ some r
    → any (inbox_conflicts e) rows ≡ true
find-any e [] r h = ground (arith, h)
find-any e (x ∷ xs) r h = elim (Bool-cases (inbox_conflicts e x)) [
  | inl here ↦ rw here refl
  | inr other ↦ rw other (find-any e xs r (ground (arith, other, h)))
]

project_redelivered :
    (s : StorePlatform) (e : EntryConfirmed) (t : Projection) (p : MerchantProgress)
    → IsRecorded (inbox_row s e) t
    → t.progress e.merchant_id ≡ some p
    → project s e t ≡ ok (none_recomputed p true (has_pending_recompute e.merchant_id t), t)
unfolding project init_progress resolve_duplicate
project_redelivered s e t p i had =
    let row = inbox_row s e in
    let found : conflicting_row e t.inbox ≡ some row = rw (conflicting_row, i.kept) refl in
    let same : same_content (fingerprint s e) e row ≡ true =
      rw (text_eq_refl e.merchant_id, text_eq_refl (fingerprint s e)) (ground arith) in
    rw (i.tracked, find-any e t.inbox row found, resolve_duplicate, found, same, had) refl

-- A redelivery of a recorded event changes no table and reports a duplicate.
pub apply_redelivered :
    (s : StorePlatform) (order : List Identifier) (e : EntryConfirmed) (t : Projection)
    → validate order e ≡ ok tt
    → IsRecorded (inbox_row s (canonical e)) t
    → (p : MerchantProgress) × (t.progress (canonical e).merchant_id ≡ some p)
      × (apply s true order e t
          ≡ (ok (none_recomputed p true (has_pending_recompute (canonical e).merchant_id t)), t))
unfolding apply transact project
apply_redelivered s order e t valid i = elim (Option-cases (t.progress (canonical e).merchant_id)) [
  | inl bad ↦ absurd (ground (arith, bad, i.tracked))
  | inr (p, had) ↦
      (p, had, rw (valid, apply, project_redelivered s (canonical e) t p i had, transact) refl)
]
