-- ===== src/Consolidation/Store/Settled.antt =====
-- The closing balances of a merchant, through the events and the recompute blocks.
use keyrus.Base.{
  ℕ, suc, ◌+◌, ◌≤◌, ◌<◌, ◌≡◌, ◌⊎◌, refl, sym, ◌∙◌, ap, subst, Bool, true, false, List, [], ◌∷◌, ltb,
  if◌then◌else◌, arith, Bool-cases, inl, inr, ok,
}
use keyrus.Base.Int.{pos}
use keyrus.Base.Text.{Text, text_eq_refl}
use keyrus.Base.Date.{is_date}
use keyrus.Base.Date.Layout.{parse-format}
use keyrus.Base.Date.Number.{day_number}
use keyrus.Consolidation.Event.{EntryConfirmed, Identifier, financial_effect, canonical}
use keyrus.Consolidation.Days.{latest_date, recompute_days}
use keyrus.Consolidation.Days.Closing.{IsAscending, IsClosed, IsUpTo, IsClosedBefore-all}
use keyrus.Consolidation.Days.Fill.{IsReady, recompute_days-IsReady, add_totals-IsReady}
use keyrus.Consolidation.Projection.{
  Projection, RecomputeResult, StorePlatform, Job, init_progress, is_some, has_pending_recompute,
  ProjectionResult, set_job, after_block, block_end, process_block,
}
use keyrus.Consolidation.Store.{new_job, apply}
use keyrus.Consolidation.Store.Once.{apply-ok-IsApplied}
use keyrus.Consolidation.Store.Steps.{IsApplied, process_block-eq-ok}
use keyrus.Consolidation.Store.Refines.{applied_rows}
use keyrus.Consolidation.Store.Queue.{
  IsQueued, pending_jobs, pending_jobs-set_job, set_job-IsQueue, after_block-merchant,
  has_pending-none, has_pending-one, IsApplied-IsQueued,
}

-- no recompute is pending for the merchant, and each closing balance is the one before plus the net
pub record IsSettled (m : Text) (t : Projection) : Type 0 where
  pub queued : IsQueued t
  pub free : pending_jobs m t.jobs ≡ []
  pub ascending : IsAscending 0 (t.balances m)
  pub closed : IsClosed (pos 0) (t.balances m)

-- one recompute is pending, and the balances are closed before its next date
pub record IsCatching (m : Text) (j : Job) (t : Projection) : Type 0 where
  pub queued : IsQueued t
  pub own : j.merchant_id ≡ m
  pub only : pending_jobs m t.jobs ≡ j ∷ []
  pub range : j.next_date ≤ j.through_date
  pub ready : IsReady j.next_date j.through_date (t.balances m)

-- what a block of the only pending job of a merchant leaves
pub record IsMoved (m : Text) (n : ℕ) (j : Job) (u : Projection) : Type 0 where
  pub queued : IsQueued u
  pub pending :
      pending_jobs m u.jobs
      ≡ (if ltb (block_end j) j.through_date then after_block n j ∷ [] else [])
  pub ready : IsReady (suc (block_end j)) j.through_date (u.balances m)

pub moved-IsSettled :
    (m : Text) (n : ℕ) (j : Job) (u : Projection)
    → ltb (block_end j) j.through_date ≡ false
    → IsMoved m n j u
    → IsSettled m u
moved-IsSettled m n j u last i = record {
  queued = i.queued;
  free = i.pending ∙ rw last refl;
  ascending = i.ready.ascending;
  closed =
      IsClosedBefore-all (block_end j) (pos 0) (u.balances m)
        (subst (λ x. IsUpTo x (u.balances m)) (ground (arith, last)) i.ready.up_to)
        i.ready.closed_before;
}

pub moved-IsCatching :
    (m : Text) (n : ℕ) (j : Job) (u : Projection)
    → j.merchant_id ≡ m
    → ltb (block_end j) j.through_date ≡ true
    → IsMoved m n j u
    → IsCatching m (after_block n j) u
moved-IsCatching m n j u own more i = record {
  queued = i.queued;
  own = after_block-merchant n j ∙ own;
  only = i.pending ∙ rw more refl;
  range = ground (arith, more);
  ready =
      subst (λ x. IsReady x (after_block n j).through_date (u.balances m)) (ground (arith, more))
        (subst (λ x. IsReady (suc (block_end j)) x (u.balances m)) (ground arith) i.ready);
}

pub block-IsMoved :
    (m : Text) (j : Job) (t u : Projection) (r : RecomputeResult)
    → IsCatching m j t
    → process_block j 1 t ≡ ok (r, u)
    → IsMoved m 1 j u
block-IsMoved m j t u r c h =
    let (days, block, made) = process_block-eq-ok j 1 t u r h in
    let jobs : u.jobs ≡ set_job j.id (after_block 1) t.jobs =
      ap (λ (x : Projection). x.jobs) made in
    let rows : u.balances m ≡ days =
      ap (λ (x : Projection). x.balances m) made ∙ rw (c.own, text_eq_refl m) refl in
    record {
      queued =
          rw (jobs, ap (λ (x : Projection). x.last_job) made)
            (set_job-IsQueue (t.last_job + 1) j.id 1 t.jobs c.queued);
      pending =
          ap (pending_jobs m) jobs
          ∙ pending_jobs-set_job m (t.last_job + 1) 1 t.jobs j c.queued c.own c.only;
      ready = rw rows (
          recompute_days-IsReady j.next_date (block_end j) j.through_date (t.balances m) days
            (omega (arith, c.range)) (omega arith) c.ready
            (subst (λ x. recompute_days j.next_date (block_end j) (t.balances x) ≡ ok days) c.own
              block));
    }

new-pending :
    (e : EntryConfirmed) (id from through : ℕ) (js : List Job)
    → pending_jobs e.merchant_id js ≡ []
    → pending_jobs e.merchant_id (new_job e id from through ∷ js) ≡ new_job e id from through ∷ []
unfolding pending_jobs
new-pending e id from through js free = rw (text_eq_refl e.merchant_id, free) refl

-- A new event of a settled merchant runs the first block of its recompute.
IsApplied-IsMoved :
    (s : StorePlatform) (e : EntryConfirmed) (t u : Projection) (a : IsApplied s e t u)
    → is_date e.business_date ≡ true
    → e.business_date.year < 10000
    → IsSettled e.merchant_id t
    → (j : Job) × (j.merchant_id ≡ e.merchant_id) × IsMoved e.merchant_id 0 j u
IsApplied-IsMoved s e t u a real short i =
    let m = e.merchant_id in
    let day : day_number a.date ≡ day_number e.business_date =
      ap day_number (ground (arith, sym a.read ∙ parse-format e.business_date real short)) in
    let (ready, le) =
      add_totals-IsReady (day_number e.business_date) (financial_effect e) (t.balances m) a.totalled
        i.ascending i.closed a.totals in
    let job = new_job e (t.last_job + 1) (day_number a.date) (latest_date 0 a.totalled) in
    let rows : u.balances m ≡ a.closed = applied_rows s e t u a m ∙ rw (text_eq_refl m) refl in
    (
      job,
      refl,
      record {
        queued = IsApplied-IsQueued s e t u a i.queued;
        pending =
            ap (pending_jobs m) a.jobs_after
            ∙ pending_jobs-set_job m (t.last_job + 1 + 1) 0 (job ∷ t.jobs) job
                (omega arith, refl, i.queued) refl
                (new-pending e (t.last_job + 1) (day_number a.date) (latest_date 0 a.totalled)
                  t.jobs i.free);
        ready = rw rows (
            recompute_days-IsReady (day_number a.date) (block_end job) (latest_date 0 a.totalled)
              a.totalled a.closed (omega (arith, day, le)) (omega arith)
              (subst (λ x. IsReady x (latest_date 0 a.totalled) a.totalled) (sym day) ready)
              a.block);
      },
    )

init_progress-IsSettled :
    (now : ℕ) (k m : Text) (t : Projection) → IsSettled m t → IsSettled m (init_progress now k t)
unfolding init_progress
init_progress-IsSettled now k m t i = elim (Bool-cases (is_some (t.progress k))) [
  | inl had ↦ rw had i
  | inr first ↦
      rw first
        (record { queued = i.queued; free = i.free; ascending = i.ascending; closed = i.closed })
]

moved-outcome :
    (m : Text) (j : Job) (u : Projection) (pending : Bool)
    → pending ≡ has_pending_recompute m u
    → j.merchant_id ≡ m
    → IsMoved m 0 j u
    → ((pending ≡ false) × IsSettled m u) ⊎ ((pending ≡ true) × (k : Job) × IsCatching m k u)
unfolding has_pending_recompute
moved-outcome m j u pending told own i = elim (Bool-cases (ltb (block_end j) j.through_date)) [
  | inl more ↦
      let caught = moved-IsCatching m 0 j u own more i in
      elim (Bool-cases pending) [
        | inl left ↦ inr (left, after_block 0 j, caught)
        | inr none_left ↦ absurd (
            ground (
              arith,
              caught.only,
              has_pending-none m (u.last_job + 1) u.jobs i.queued (sym told ∙ none_left),
            ))
      ]
  | inr last ↦
      let settled = moved-IsSettled m 0 j u last i in
      elim (Bool-cases pending) [
        | inr none_left ↦ inl (none_left, settled)
        | inl left ↦
            absurd
              (has_pending-one m (u.last_job + 1) u.jobs i.queued (sym told ∙ left) settled.free)
      ]
]

-- A new event of a settled merchant, at a date of the calendar before the year ten thousand: either
-- the result reports no pending recompute and the merchant is settled again, each closing balance being
-- the one before it plus the net of its day, or it reports one, exactly one job is pending and the
-- balances before its next date are closed.
pub apply-IsSettled :
    (s : StorePlatform) (works : Bool) (order : List Identifier) (e : EntryConfirmed)
    (t u : Projection) (r : ProjectionResult)
    → apply s works order e t ≡ (ok r, u)
    → r.is_duplicate ≡ false
    → is_date e.business_date ≡ true
    → e.business_date.year < 10000
    → IsSettled (canonical e).merchant_id t
    → ((r.recompute_pending ≡ false) × IsSettled (canonical e).merchant_id u)
      ⊎ ((r.recompute_pending ≡ true) × (k : Job) × IsCatching (canonical e).merchant_id k u)
unfolding canonical
apply-IsSettled s works order e t u r h first real short i =
    let m = (canonical e).merchant_id in
    let (a, told) = apply-ok-IsApplied s works order e t u r h first in
    let (j, own, moved) =
      IsApplied-IsMoved s (canonical e) (init_progress s.now m t) u a real short
        (init_progress-IsSettled s.now m m t i) in
    moved-outcome m j u r.recompute_pending told own moved
