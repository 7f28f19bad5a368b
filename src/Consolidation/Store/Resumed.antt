-- ===== src/Consolidation/Store/Resumed.antt =====
-- The blocks that `ResumeNext` runs until a merchant is settled again.
use keyrus.Base.{
  ℕ, zero, suc, ◌+◌, ◌*◌, ◌<◌, ◌≡◌, ◌⊎◌, refl, sym, ◌∙◌, ap, true, ltb, arith, Bool-cases,
  Result-cases, inl, inr, Result, ok, err,
}
use keyrus.Base.Text.{Text, lower}
use keyrus.Consolidation.Event.{Failure, conflict_error}
use keyrus.Consolidation.Days.{recompute_days}
use keyrus.Consolidation.Days.Fill.{recompute_days-eq-err}
use keyrus.Consolidation.Projection.{
  Projection, RecomputeResult, Job, after_block, block_end, process_block,
}
use keyrus.Consolidation.Store.{resume_next, resume_transaction, transact, nothing_processed}
use keyrus.Consolidation.Store.Queue.{next_job-only, next_job-none}
use keyrus.Consolidation.Store.Settled.{
  IsSettled, IsCatching, block-IsMoved, moved-IsSettled, moved-IsCatching,
}

process_block-eq-err :
    (j : Job) (n : ℕ) (t : Projection) (f : Failure)
    → process_block j n t ≡ err f
    → f ≡ conflict_error
unfolding process_block
process_block-eq-err j n t f h =
    elim (Result-cases (recompute_days j.next_date (block_end j) (t.balances j.merchant_id))) [
      | inl (g, bad) ↦
          let same : g ≡ f = ground (arith, bad, h) in
          sym same
          ∙ recompute_days-eq-err j.next_date (block_end j) (t.balances j.merchant_id) g bad
      | inr (days, closed) ↦ ground (arith, closed, h)
    ]

resume_next-cases :
    (merchant : Text) (j : Job) (t : Projection)
    → IsCatching (lower merchant) j t
    → ((r : RecomputeResult) × (u : Projection) × (process_block j 1 t ≡ ok (r, u))
        × (resume_next true merchant t ≡ (ok r, u)))
      ⊎ (resume_next true merchant t ≡ (err conflict_error, t))
unfolding resume_next resume_transaction transact
resume_next-cases merchant j t c =
    let found = next_job-only (lower merchant) t.jobs j c.only in
    elim (Result-cases (process_block j 1 t)) [
      | inl (f, bad) ↦
          inr (rw (found, resume_transaction, bad, transact, process_block-eq-err j 1 t f bad) refl)
      | inr ((r, u), done) ↦ inl (r, u, done, rw (found, resume_transaction, done, transact) refl)
    ]

-- A settled merchant has nothing to resume.
resume_next-settled :
    (merchant : Text) (t : Projection)
    → IsSettled (lower merchant) t
    → resume_next true merchant t ≡ (ok nothing_processed, t)
unfolding resume_next resume_transaction transact
resume_next-settled merchant t i =
    rw (next_job-none (lower merchant) t.jobs i.free, resume_transaction, transact) refl

-- `n` calls of `ResumeNext` for a merchant, until one fails
unfoldable pub resumes : ℕ → Text → Projection → Result Failure Projection
unfolding resume_next
resumes zero m t = ok t
resumes (suc n) m t = elim (resume_next true m t).0 [
  | err f ↦ err f
  | ok r ↦ resumes n m (resume_next true m t).1
]

resumes_step :
    (n : ℕ) (m : Text) (t u : Projection) (r : RecomputeResult)
    → resume_next true m t ≡ (ok r, u)
    → resumes (suc n) m t ≡ resumes n m u
unfolding resumes
resumes_step n m t u r went =
    rw (resumes, went)
      (ap (λ (x : Result Failure RecomputeResult × Projection). resumes n m x.1) went)

resumes_settled : (n : ℕ) (m : Text) (t : Projection) → IsSettled (lower m) t → resumes n m t ≡ ok t
unfolding resumes
resumes_settled zero m t i = refl
resumes_settled (suc n) m t i =
    resumes_step n m t t nothing_processed (resume_next-settled m t i) ∙ resumes_settled n m t i

-- While PostgreSQL accepts the transactions, enough calls of `ResumeNext` for the days that are left,
-- at 31 days a call, settle a merchant with one pending recompute, unless a closing balance leaves the
-- range of a bigint; that is the only failure.
pub resumes-IsSettled :
    (n : ℕ) (m : Text) (j : Job) (t : Projection)
    → IsCatching (lower m) j t
    → j.through_date < j.next_date + 31 * n
    → ((u : Projection) × (resumes n m t ≡ ok u) × IsSettled (lower m) u)
      ⊎ (resumes n m t ≡ err conflict_error)
unfolding resumes
resumes-IsSettled zero m j t c h = absurd (omega (arith, c.range, h))
resumes-IsSettled (suc n) m j t c h = elim (resume_next-cases m j t c) [
  | inr failed ↦ inr (rw (resumes, failed) refl)
  | inl (r, u, done, went) ↦
      let moved = block-IsMoved (lower m) j t u r c done in
      elim (Bool-cases (ltb (block_end j) j.through_date)) [
        | inr last ↦
            let settled = moved-IsSettled (lower m) 1 j u last moved in
            inl (u, resumes_step n m t u r went ∙ resumes_settled n m u settled, settled)
        | inl more ↦ rw (resumes_step n m t u r went) (
            resumes-IsSettled n m (after_block 1 j) u
              (moved-IsCatching (lower m) 1 j u c.own more moved) (ground (arith, more, h)))
      ]
]
