-- ===== src/Consolidation/Store/Calls.antt =====
-- How the calls of `Apply` and of `ResumeNext` end.
use keyrus.Base.{
  ℕ, ◌≡◌, sym, ◌∙◌, ap, subst, Bool, false, some, List, arith, any, inl, inr, ok, Result-cases,
  Option-cases, Bool-cases,
}
use keyrus.Base.Text.{Text, lower}
use keyrus.Consolidation.Event.{EntryConfirmed, Identifier, validate, canonical}
use keyrus.Consolidation.Projection.{
  Projection, ProjectionResult, RecomputeResult, StorePlatform, Job, inbox_conflicts, init_progress,
  process_block,
}
use keyrus.Consolidation.Store.{
  resolve_duplicate, project, transact, apply, next_job, resume_transaction, resume_next,
}
use keyrus.Consolidation.Store.Steps.{IsApplied, apply_new-IsApplied}

-- how a call of `Apply` ends
pub data Applies (s : StorePlatform) (e : EntryConfirmed) (t : Projection)
    : Projection → Type 0 where
  unchanged : Applies s e t t
  started : Applies s e t (init_progress s.now e.merchant_id t)
  new :
      (u : Projection)
      → any (inbox_conflicts e) t.inbox ≡ false
      → IsApplied s e (init_progress s.now e.merchant_id t) u
      → Applies s e t u

pub init_progress-inbox :
    (now : ℕ) (m : Text) (t : Projection) → (init_progress now m t).inbox ≡ t.inbox
unfolding init_progress
init_progress-inbox now m t = ground arith

project-Applies :
    (s : StorePlatform) (e : EntryConfirmed) (t u : Projection) (r : ProjectionResult)
    → project s e t ≡ ok (r, u)
    → Applies s e t u
unfolding project
project-Applies s e t u r h =
    let begun = init_progress s.now e.merchant_id t in
    elim (Bool-cases (any (inbox_conflicts e) begun.inbox)) [
      | inr fresh ↦
          new u
            (ap (any (inbox_conflicts e)) (sym (init_progress-inbox s.now e.merchant_id t)) ∙ fresh)
            (apply_new-IsApplied s e begun u r (rw (fresh, project) at h))
      | inl known ↦ elim (Result-cases (resolve_duplicate s e begun)) [
        | inl (f, bad) ↦ ground (arith, known, bad, h)
        | inr (result, found) ↦
            let same : begun ≡ u = ground (arith, known, found, h) in
            subst (Applies s e t) same started
      ]
    ]

transact-Applies :
    (s : StorePlatform) (e : EntryConfirmed) (works : Bool) (t : Projection)
    → Applies s e t (transact works (project s e t) t).1
unfolding transact
transact-Applies s e works t = elim (Result-cases (project s e t)) [
  | inl (f, bad) ↦ rw (bad, transact) unchanged
  | inr ((r, u), done) ↦ elim (Bool-cases works) [
    | inl up ↦ rw (done, transact, up) (project-Applies s e t u r done)
    | inr down ↦ rw (done, transact, down) unchanged
  ]
]

-- Every call of `Apply` leaves the tables alone, or gives a merchant its row of progress, or applies
-- one new event, in its canonical form.
pub apply-Applies :
    (s : StorePlatform) (works : Bool) (order : List Identifier) (e : EntryConfirmed)
    (t : Projection)
    → Applies s (canonical e) t (apply s works order e t).1
unfolding apply
apply-Applies s works order e t = elim (Result-cases (validate order e)) [
  | inl (f, bad) ↦ rw (bad, apply) unchanged
  | inr (_, good) ↦ rw (good, apply) (transact-Applies s (canonical e) works t)
]

-- how a call of `ResumeNext` ends
pub data Resumes (m : Text) (t : Projection) : Projection → Type 0 where
  idle : Resumes m t t
  processed :
      (j : Job) (r : RecomputeResult) (u : Projection)
      → next_job m t.jobs ≡ some j
      → process_block j 1 t ≡ ok (r, u)
      → Resumes m t u

pub resume_next-Resumes :
    (works : Bool) (merchant : Text) (t : Projection)
    → Resumes (lower merchant) t (resume_next works merchant t).1
unfolding resume_next resume_transaction transact
resume_next-Resumes works merchant t = elim (Option-cases (next_job (lower merchant) t.jobs)) [
  | inl free ↦ elim (Bool-cases works) [
    | inl up ↦ rw (free, resume_transaction, transact, up) idle
    | inr down ↦ rw (free, resume_transaction, transact, down) idle
  ]
  | inr (j, found) ↦ elim (Result-cases (process_block j 1 t)) [
    | inl (f, bad) ↦ rw (found, resume_transaction, bad, transact) idle
    | inr ((r, u), done) ↦ elim (Bool-cases works) [
      | inl up ↦ rw (found, resume_transaction, done, transact, up) (processed j r u found done)
      | inr down ↦ rw (found, resume_transaction, done, transact, down) idle
    ]
  ]
]
